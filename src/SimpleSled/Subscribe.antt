-- ===== src/SimpleSled/Subscribe.antt =====
-- store_simple_sled/src/lib.rs: `query_area`, `subscribe_area`, `query_and_subscribe_area`, and the
-- same for ranges. The slab chooses the key of a new subscriber, one that is not in use.
use willow_rs.Prelude.{ℕ, none, some, [], arith}
use willow_rs.Parameters.{SubspaceId}
use willow_rs.Grouping.Area.{Area}
use willow_rs.Grouping.Range3d.{Range3d, from_area}
use willow_rs.Store.{QueryIgnoreParams}
use willow_rs.Store.Events.{add_subscriber, next_op_id}
use willow_rs.Store.Events.Produce.{Subscriber, subscriber_new}
use willow_rs.Store.Events.Unread.{Unread, caught_up}
use willow_rs.SimpleSled.State.{Setting, Store}
use willow_rs.SimpleSled.Query.{EntryProducer}
use willow_rs.SimpleSled.Ranges.{EntryAndSubProducer}

-- `EntryProducer::new`.
unfoldable pub query_range :
    {N S PD AT : Type 0} → Range3d S → QueryIgnoreParams → EntryProducer N S PD AT
query_range range ignore = record { iter = none; ignore = ignore; range = range }

module _ {N S PD AT E : Type 0} (cfg : Setting N S PD AT) where
  pub subscribe_range :
      ℕ → Range3d S → QueryIgnoreParams → Store cfg E → Subscriber N S PD AT × Store cfg E
  subscribe_range key range ignore s =
      (subscriber_new key range ignore, record s { events = add_subscriber key s.events })

  pub query_and_subscribe_range :
      ℕ → Range3d S → QueryIgnoreParams → Store cfg E → EntryAndSubProducer N S PD AT × Store cfg E
  unfolding query_range subscribe_range
  query_and_subscribe_range key range ignore s =
      let (subscriber, s') = subscribe_range key range ignore s in
      (record { entry_producer = query_range range ignore; subscriber = some subscriber }, s')

  -- What the subscriber has to read when the call returns: nothing, but every later operation.
  pub query_and_subscribe_range-Unread :
      (key : ℕ) (range : Range3d S) (ignore : QueryIgnoreParams) (s : Store cfg E)
      → Unread (query_and_subscribe_range key range ignore s).1.events key []
  unfolding query_and_subscribe_range subscribe_range add_subscriber next_op_id
  query_and_subscribe_range-Unread key range ignore s = caught_up (ground arith) (ground arith)

module _ {N S PD AT : Type 0} (cfg : Setting N S PD AT) (i : SubspaceId S) where
  pub query_area : Area S → QueryIgnoreParams → EntryProducer N S PD AT
  query_area area ignore = query_range (from_area i cfg.limits area) ignore

  module _ {E : Type 0} where
    pub subscribe_area :
        ℕ → Area S → QueryIgnoreParams → Store cfg E → Subscriber N S PD AT × Store cfg E
    subscribe_area key area ignore s =
        subscribe_range cfg key (from_area i cfg.limits area) ignore s

    pub query_and_subscribe_area :
        ℕ → Area S → QueryIgnoreParams → Store cfg E → EntryAndSubProducer N S PD AT × Store cfg E
    query_and_subscribe_area key area ignore s =
        query_and_subscribe_range cfg key (from_area i cfg.limits area) ignore s
