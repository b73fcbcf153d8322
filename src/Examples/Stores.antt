-- ===== src/Examples/Stores.antt =====
-- The results about the state store at concrete inputs.
use headless_csms.Prelude.{◌≡◌, refl, ◌≢◌, ◌⊎◌, All, none, some, ok, pos, Result}
use headless_csms.State.{State, normalize, empty}
use headless_csms.State.Store.{StoreError, marshal, parse, write, update, open_store}
use headless_csms.State.Laws.{
  IsWhole, IsSynced, Stored, Unchanged, parse-marshal, write-atomic, update_all_or_nothing,
  update-IsSynced,
}
use headless_csms.Examples.Fixtures.{no_state, new_store, rename_fails}

abbrev numbered : State → Result StoreError State
numbered s = ok (record s { next_reservation_id = pos 7 })

abbrev after_seven : State
after_seven = record no_state { next_reservation_id = pos 7 }

parse-marshal_example : parse (marshal (normalize after_seven)) ≡ ok (normalize after_seven)
parse-marshal_example = parse-marshal after_seven

write-atomic_example :
    All (IsWhole none (marshal after_seven)) (write new_store.disk after_seven rename_fails).seen
    × (((write new_store.disk after_seven rename_fails).error ≡ none)
          × ((write new_store.disk after_seven rename_fails).disk.target
              ≡ some (marshal after_seven))
        ⊎ ((write new_store.disk after_seven rename_fails).error ≢ none)
          × ((write new_store.disk after_seven rename_fails).disk.target ≡ none))
write-atomic_example = write-atomic new_store.disk after_seven rename_fails

update_all_or_nothing_example :
    Stored numbered new_store
      (update numbered rename_fails new_store).0
      (update numbered rename_fails new_store).1
    ⊎ Unchanged new_store
        (update numbered rename_fails new_store).0
        (update numbered rename_fails new_store).1
update_all_or_nothing_example = update_all_or_nothing numbered rename_fails new_store

new_store-IsSynced : IsSynced new_store
unfolding open_store empty
new_store-IsSynced = (new_store, refl, refl)

update-IsSynced_example : IsSynced (update numbered rename_fails new_store).0
update-IsSynced_example = update-IsSynced numbered rename_fails new_store new_store-IsSynced
