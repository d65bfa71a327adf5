-- ===== src/Broker.antt =====
-- app/infrastructure/broker.py and app/worker.py: searches that wait in a durable queue. The broker
-- that keeps the queue and the `json` library are parameters.
use ioka.Prelude.{String, Option, none, some}
use ioka.Json.{Fields, search_message, get_text}
use ioka.Cache.{Reply, answered, broken, JsonLibrary}

abbrev pub search_queue : String
search_queue = "flight-searches"

-- A persistent message sent to a routing key; connecting and declaring the queue are part of it.
pub record Broker (Q : Type 0) : Type 0 where
  pub send : String → String → Q → Reply (Unit {0}) × Q
  pub json : JsonLibrary

unfoldable pub publish : {Q : Type 0} → Broker Q → String → Q → Reply (Unit {0}) × Q
publish broker search_id q =
    broker.send search_queue (broker.json.dumps (search_message search_id)) q

-- `message.process(requeue=True)`: a message whose handling raised goes back to the queue.
pub data Settled (W : Type 0) : Type 0 where
  acked : W → Settled W
  requeued : Settled W

module _ {W : Type 0} (json : JsonLibrary) (handler : String → W → W) where
  abbrev pub handled : Option String → W → Settled W
  handled none w = requeued
  handled (some search_id) w = acked (handler search_id w)

  unfoldable pub consume_payload : Reply Fields → W → Settled W
  consume_payload broken w = requeued
  consume_payload (answered payload) w = handled (get_text "search_id" payload) w

  unfoldable pub consume : String → W → Settled W
  unfolding consume_payload
  consume body w = consume_payload (json.loads body) w
