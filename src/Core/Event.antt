-- ===== src/Core/Event.antt =====
-- internal/core/event.go: the events and the bus that fans them out. A subscriber's channel is the
-- list of what it has not received yet, oldest first.
pub mod Delivery
use headless_csms.Prelude.{
  ℕ, ◌+◌, ◌%◌, ◌^◌, String, Bool, true, false, List, [], ◌∷◌, ◌++◌, map, if◌then◌else◌, ltb, eqb,
  length, ℤ, pos, ◌==◌, nat_eq, insert, string_eq,
}
use headless_csms.Clock.{Time, zero_time}
use headless_csms.Core.Status.{EvseStatus, unset}

pub data EventKind : Type 0 where
  charge_point_connected charge_point_disconnected boot_notified heartbeat : EventKind
  station_status_changed evse_status_changed : EventKind
  transaction_started transaction_stopped meter_values : EventKind
  reservation_created reservation_ended : EventKind

pub record Event : Type 0 where
  pub kind : EventKind
  pub at : Time
  pub charge_point_id : String
  pub evse_uid : String
  pub from : EvseStatus
  pub to : EvseStatus
  pub error_code : String
  pub transaction_id : String
  pub reservation_id : ℤ
  pub id_tag : String
  pub detail : String

-- `Event{Kind: k, At: at, ChargePointID: id}`: the other fields are zero.
abbrev pub new_event : EventKind → Time → String → Event
new_event k at id = record {
  kind = k;
  at = at;
  charge_point_id = id;
  evse_uid = "";
  from = unset;
  to = unset;
  error_code = "";
  transaction_id = "";
  reservation_id = pos 0;
  id_tag = "";
  detail = "";
}

abbrev pub subscriber_buffer : ℕ
subscriber_buffer = 256

-- `handle` stands for the pointer that tells two subscribers apart.
pub record Subscriber : Type 0 where
  pub handle : ℕ
  pub name : String
  pub ch : List Event
  pub drops : ℕ

pub record Bus : Type 0 where
  pub next_handle : ℕ
  pub subs : List Subscriber

unfoldable pub new_bus : Bus
new_bus = record { next_handle = 0; subs = [] }

-- `Subscribe` returns the subscriber, whose `handle` the cancel function takes.
unfoldable pub subscribe : String → Bus → Subscriber × Bus
subscribe name b = (s, record { next_handle = b.next_handle + 1; subs = s ∷ b.subs })
  where
    s : Subscriber
    s = record { handle = b.next_handle; name = name; ch = []; drops = 0 }

-- Cancelling takes the subscriber off the bus and closes its channel.
unfoldable pub remove_handle : ℕ → List Subscriber → List Subscriber
remove_handle h [] = []
remove_handle h (s ∷ ss) =
    let rest = remove_handle h ss in if eqb s.handle h then rest else s ∷ rest

unfoldable pub unsubscribe : ℕ → Bus → Bus
unfolding remove_handle
unsubscribe h b = record b { subs = remove_handle h b.subs }

-- The `select` of `publish` for one subscriber: `drops` is a uint64.
unfoldable pub offer : Event → Subscriber → Subscriber
offer e s =
    if ltb (length s.ch) subscriber_buffer
    then record s { ch = s.ch ++ e ∷ [] }
    else record s { drops = (s.drops + 1) % 2 ^ 64 }

unfoldable pub publish : Event → Bus → Bus
unfolding offer
publish e b = record b { subs = map (offer e) b.subs }

unfoldable pub publish_all : List Event → Bus → Bus
unfolding publish
publish_all [] b = b
publish_all (e ∷ es) b = publish_all es (publish e b)

-- The consumer takes the oldest event.
unfoldable pub receive : Subscriber → Subscriber
receive s = elim s.ch [ [] ↦ s | e ∷ rest ↦ record s { ch = rest } ]

unfoldable pub drops_of : List Subscriber → List (String × ℕ) → List (String × ℕ)
drops_of [] out = out
drops_of (s ∷ ss) out = drops_of ss (if ltb 0 s.drops then insert s.name s.drops out else out)

unfoldable pub drops : Bus → List (String × ℕ)
unfolding drops_of
drops b = drops_of b.subs []
