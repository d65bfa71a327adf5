-- ===== src/Tickets/Document.antt =====
-- The document that `build_ticket_pdf` of app/application/tickets.py hands to its library, which
-- draws it: `draw` stands for `document.build` and the bytes of the output.
use Prim.Native.String as Text
use ioka.Prelude.{ℕ, String, List, [], ◌∷◌}
use ioka.Bytes.{Bytes}
use ioka.Exceptions.{Result, ok, ◌>>=◌}
use ioka.Models.{Order, Offer}
use ioka.Tickets.{Cell, or_empty, build_ticket}

-- lengths in millimetres
pub record Margins : Type 0 where
  pub right : ℕ
  pub left : ℕ
  pub top : ℕ
  pub bottom : ℕ

-- The cells of a command, from column and row to column and row; a negative index, which counts from
-- the end, is `last`.
pub data Index : Type 0 where
  index : ℕ → Index
  last : Index

pub data StyleCommand : Type 0 where
  background text_color : Index × Index → Index × Index → String → StyleCommand
  -- the width of the lines is in tenths of a point
  grid : Index × Index → Index × Index → ℕ → String → StyleCommand
  font_name v_align : Index × Index → Index × Index → String → StyleCommand
  padding : Index × Index → Index × Index → ℕ → StyleCommand

pub data Flowable : Type 0 where
  paragraph : String → String → Flowable
  spacer : ℕ → ℕ → Flowable
  table : List (String × Cell) → List ℕ → String → List StyleCommand → Flowable

pub record TicketDocument : Type 0 where
  pub page_size : String
  pub margins : Margins
  pub title : String
  pub story : List Flowable

abbrev pub from : Index × Index
from = (index 0, index 0)

abbrev pub first_column : Index × Index
first_column = (index 0, last)

abbrev pub to : Index × Index
to = (last, last)

abbrev pub ticket_style : List StyleCommand
ticket_style =
    background from first_column "#E8F5EE"
    ∷ text_color from first_column "#135D3B"
    ∷ grid from to 5 "#C8D8D0"
    ∷ font_name from first_column "Helvetica-Bold"
    ∷ v_align from to "TOP"
    ∷ padding from to 8
    ∷ []

unfoldable pub ticket_document : Order → List (String × Cell) → TicketDocument
ticket_document order rows = record {
  page_size = "A4";
  margins = record { right = 20; left = 20; top = 18; bottom = 18 };
  title = Text.◌++◌ "Ticket " (or_empty order.ticket_number);
  story =
      paragraph "IOKA FLIGHT TICKET" "Title"
      ∷ spacer 1 8
      ∷ table rows (52 ∷ 103 ∷ []) "LEFT" ticket_style
      ∷ spacer 1 8
      ∷ paragraph "Keep this document and a valid identity document with you during travel."
          "BodyText"
      ∷ [];
}

unfoldable pub build_ticket_pdf : (TicketDocument → Bytes) → Order → Offer → Result Bytes
unfolding ticket_document
build_ticket_pdf draw order offer = do
  rows ← build_ticket order offer
  ok (draw (ticket_document order rows))
