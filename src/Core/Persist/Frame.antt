-- ===== src/Core/Persist/Frame.antt =====
-- What a write to the store touches: the store alone. About internal/core/persist.go.
use headless_csms.Prelude.{◌≡◌, refl, sym, subst, inl, inr, Option, none, some, ok, arith}
use headless_csms.State.{State, normalize}
use headless_csms.State.Store.{Store, Outcome}
use headless_csms.State.Laws.{update_all_or_nothing}
use headless_csms.Core.Types.{Service}
use headless_csms.Core.Persist.{persist, persist_to, persist_or_log, write_domain}

persist_to_frame :
    (o : Outcome) (s : Service) (store : Option Store)
    → s.store ≡ store
    → (persist_to o s store).0 ≡ record s { store = ((persist_to o s store).0).store }
unfolding persist_to
persist_to_frame o s none e = refl
persist_to_frame o s (some st) e = refl

pub persist_frame :
    (o : Outcome) (s : Service) → (persist o s).0 ≡ record s { store = ((persist o s).0).store }
unfolding persist
persist_frame o s = persist_to_frame o s s.store refl

pub persist_or_log_frame :
    (o : Outcome) (s : Service)
    → persist_or_log o s ≡ record s { store = (persist_or_log o s).store }
unfolding persist_or_log
persist_or_log_frame o s = persist_frame o s

-- The store, if there is one, has the state that the service's update makes.
abbrev pub HasWritten : Service → Option Store → Type 0
HasWritten s none = Unit
HasWritten s (some st) =
    (before : State) × (after : State) × (write_domain s before ≡ ok after)
    × (st.state ≡ normalize after)

persist_to-HasWritten :
    (o : Outcome) (s : Service) (store : Option Store)
    → s.store ≡ store
    → (persist_to o s store).1 ≡ none
    → HasWritten s ((persist_to o s store).0).store
unfolding persist_to
persist_to-HasWritten o s none e h = subst (HasWritten s) (sym e) tt
persist_to-HasWritten o s (some st) e h = elim (update_all_or_nothing (write_domain s) o st) [
  | inl (next, p, _, q, _, _) ↦ (st.state, next, p, q)
  | inr u ↦ absurd (u.0 h)
]

pub persist-HasWritten :
    (o : Outcome) (s : Service) → (persist o s).1 ≡ none → HasWritten s ((persist o s).0).store
unfolding persist
persist-HasWritten o s h = persist_to-HasWritten o s s.store refl h

pub HasWritten-counter :
    (s : Service) (store : Option Store)
    → HasWritten s store
    → (st : Store) → store ≡ some st
    → st.state.next_reservation_id ≡ s.next_reservation_id
unfolding write_domain normalize
HasWritten-counter s none h st e = absurd (cc)
HasWritten-counter s (some st') (before, after, p, q) st e = ground arith
