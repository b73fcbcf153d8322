-- ===== src/Core/Persist/Restart.antt =====
-- What a restart restores. About internal/core/persist.go.
use headless_csms.Prelude.{
  ◌≡◌, refl, sym, ap, ◌∙◌, subst, ◌≢◌, inl, inr, Bool, true, false, not, List, [], ◌∷◌, some, ℤ,
  pos, max_int, succ, max, ◌<ℤ◌, lt-succ, le_max_left, le_max_right, ◌≤ℤ◌, lookup,
  lookup-insert-some, Option-cases, Bool-cases, All, arith, int_eq,
}
use headless_csms.Clock.{Time, is_after, time_sub}
use headless_csms.State
use headless_csms.State.{State}
use headless_csms.State.Store.{Store, Outcome, get}
use headless_csms.Core.Types.{active, TimedReservation, Service}
use headless_csms.Core.Service.{put}
use headless_csms.Core.Persist.{
  connector_id, arm, loaded_reservation, load_transaction, load_transactions, load_reservation,
  load_reservations, load_locked, load, persist_or_log, put,
}
use headless_csms.Core.Persist.Frame.{persist_or_log_frame}

-- An entry as a restart at `now` restores it, where arming its timer reads `armed_at`: active, not
-- expired, on a configured EVSE, with its timer armed, and under an id that will not be given out
-- again.
pub record IsRestored (now armed_at : Time) (s : Service) (k : ℤ) (r : TimedReservation)
    : Type 0 where
  pub keyed : r.id ≡ k
  pub status : r.status ≡ active
  pub ahead : is_after r.expires_at now ≡ true
  pub connector : connector_id s.cfg r.evse_uid ≡ some r.connector_id
  pub armed :
      r.timer
      ≡ some
          (record { after = time_sub r.expires_at armed_at; id = r.id; expires_at = r.expires_at })
  pub used : k <ℤ s.next_reservation_id

abbrev AllRestored : Time → (ℤ → Time) → Service → Type 0
AllRestored now clock s =
    (k : ℤ) (r : TimedReservation)
    → lookup k s.reservations ≡ some r
    → IsRestored now (clock k) s k r

IsRestored-new :
    (now armed_at : Time) (x : State.Reservation) (c : ℤ) (s t : Service) (k : ℤ)
    (r : TimedReservation)
    → x.id ≢ pos max_int
    → is_after x.expires_at now ≡ true
    → connector_id t.cfg x.evse_uid ≡ some c
    → t.next_reservation_id ≡ max s.next_reservation_id (succ x.id)
    → x.id ≡ k
    → arm armed_at (loaded_reservation c x) ≡ r
    → IsRestored now armed_at t k r
unfolding arm
IsRestored-new now armed_at x c s t k r room later e next same is_new =
    let bound : x.id <ℤ t.next_reservation_id =
      rw next (omega (arith, lt-succ x.id room, le_max_right s.next_reservation_id (succ x.id))) in
    subst (IsRestored now armed_at t k) is_new (
      subst (λ j. IsRestored now armed_at t j (arm armed_at (loaded_reservation c x))) same
        (record {
          keyed = refl;
          status = refl;
          ahead = later;
          connector = e;
          armed = refl;
          used = bound;
        }))

-- An entry stays restored while the configuration stays and the counter does not go back.
IsRestored-old :
    (now armed_at : Time) (s t : Service) (k : ℤ) (r : TimedReservation)
    → t.cfg ≡ s.cfg
    → s.next_reservation_id ≤ℤ t.next_reservation_id
    → IsRestored now armed_at s k r
    → IsRestored now armed_at t k r
IsRestored-old now armed_at s t k r same next v = record {
  keyed = v.keyed;
  status = v.status;
  ahead = v.ahead;
  connector = rw same v.connector;
  armed = v.armed;
  used = omega (arith, v.used, next);
}

load_reservation-AllRestored :
    (now : Time) (clock : ℤ → Time) (x : State.Reservation) (acc : Service × Bool)
    → x.id ≢ pos max_int
    → AllRestored now clock acc.0
    → AllRestored now clock (load_reservation now clock x acc).0
unfolding load_reservation
load_reservation-AllRestored now clock x (s, dropped) room v =
    elim (Bool-cases (not (is_after x.expires_at now))) [
      | inl t ↦ rw (t, load_reservation) v
      | inr f ↦ elim (Option-cases (connector_id s.cfg x.evse_uid)) [
        | inl e ↦ rw (f, load_reservation, e) v
        | inr (c, e) ↦
            rw (f, load_reservation, e)
              λ k r h.
                elim (lookup-insert-some x.id k (arm (clock x.id) (loaded_reservation c x))
                  s.reservations h) [
                    | inl (same, is_new) ↦
                        IsRestored-new now (clock k) x c s _ k r room (ground arith) e refl same
                          (subst (λ i. arm (clock i) (loaded_reservation c x) ≡ r) same is_new)
                    | inr old ↦
                        IsRestored-old now (clock k) s _ k r refl
                          (le_max_left s.next_reservation_id (succ x.id)) (v k r old)
                  ]
      ]
    ]

load_reservations-AllRestored :
    (now : Time) (clock : ℤ → Time) (xs : List State.Reservation) (acc : Service × Bool)
    → All (λ x. x.id ≢ pos max_int) xs
    → AllRestored now clock acc.0
    → AllRestored now clock (load_reservations now clock xs acc).0
unfolding load_reservations
load_reservations-AllRestored now clock [] acc room v = v
load_reservations-AllRestored now clock (x ∷ xs) acc room v =
    load_reservations-AllRestored now clock xs (load_reservation now clock x acc) room.1
      (load_reservation-AllRestored now clock x acc room.0 v)

load_transactions-reservations :
    (ts : List State.Transaction) (s : Service)
    → (load_transactions ts s).reservations ≡ s.reservations
unfolding load_transactions load_transaction put
load_transactions-reservations [] s = refl
load_transactions-reservations (t ∷ ts) s = load_transactions-reservations ts (load_transaction t s)

-- After a restart every reservation in the table is active, not expired and on a configured EVSE, its
-- timer is armed for its expiry, and the counter has passed its id, so that no id is given out twice;
-- on a state file whose ids are below the largest int, with a table that was empty before.
pub load-IsRestored :
    (now : Time) (clock : ℤ → Time) (o : Outcome) (st : Store) (s : Service) (k : ℤ)
    (r : TimedReservation)
    → s.reservations ≡ []
    → All (λ x. x.id ≢ pos max_int) (get st).reservations
    → lookup k (load now clock o st s).reservations ≡ some r
    → IsRestored now (clock k) (load now clock o st s) k r
unfolding load
load-IsRestored now clock o st s k r empty room h =
    by_drop (load_locked now clock (get st) s).1 refl
  where
    none_before :
        (t : Service)
        → t.reservations ≡ s.reservations
        → AllRestored now clock (load_transactions (get st).transactions t)
    none_before t same j q e = absurd (
        let gone = load_transactions-reservations (get st).transactions t ∙ same ∙ empty in
        let e' : lookup j [] ≡ some q = subst (λ m. lookup j m ≡ some q) gone e in
        unfold lookup in cc (e'))

    loaded : AllRestored now clock (load_locked now clock (get st) s).0
    loaded =
        unfold load_locked in
        (load_reservations-AllRestored now clock (get st).reservations _ room (none_before _ refl))

    u : Service
    u = (load_locked now clock (get st) s).0

    written : AllRestored now clock (persist_or_log o u)
    written j q e =
        let frame = persist_or_log_frame o u in
        IsRestored-old now (clock j) u (persist_or_log o u) j q (ap (λ (t : Service). t.cfg) frame)
          (let next = ap (λ (t : Service). t.next_reservation_id) frame in
            subst (λ n. u.next_reservation_id ≤ℤ n) (sym next) (omega arith))
          (loaded j q
            (subst (λ m. lookup j m ≡ some q) (ap (λ (t : Service). t.reservations) frame) e))

    by_drop :
        (b : Bool)
        → (load_locked now clock (get st) s).1 ≡ b
        → IsRestored now (clock k) (load now clock o st s) k r
    by_drop true p = rw (p, load) (written k r (rw (p, load) at h))
    by_drop false p = rw (p, load) (loaded k r (rw (p, load) at h))
