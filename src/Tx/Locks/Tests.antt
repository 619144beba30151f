-- ===== src/Tx/Locks/Tests.antt =====
-- Two transactions that ask for the same two devices, named in different orders.
use aria_underlay.Base.{any, ◌≡◌, List, [], ◌∷◌, text, refl, text_ord}
use aria_underlay.Base.BTree.{same}
use aria_underlay.Model.{DeviceId}
use aria_underlay.Tx.Locks.{Holder, ordered_device_ids, sort, dedup, insert_sorted}
use aria_underlay.Tx.Locks.Order.{IsRising, ordered_device_ids-IsRising}
use aria_underlay.Tx.Locks.Progress.{take_lock}
use aria_underlay.Tx.Locks.Finish.{◌⟶*◌, done, next, arrived, acquire_many_completes}

abbrev crossed : List (List DeviceId)
crossed =
    (text "leaf-a" ∷ text "leaf-b" ∷ []) ∷ (text "leaf-b" ∷ text "leaf-a" ∷ text "leaf-b" ∷ []) ∷ []

abbrev second : Holder DeviceId
second = record { held = []; wanted = ordered_device_ids (text "leaf-b" ∷ text "leaf-a" ∷ []) }

first_takes : arrived crossed ⟶* (
    record { held = text "leaf-a" ∷ []; wanted = text "leaf-b" ∷ [] }
    ∷ record {
      held = [];
      wanted = ordered_device_ids (text "leaf-b" ∷ text "leaf-a" ∷ text "leaf-b" ∷ []);
    }
    ∷ [])
unfolding ordered_device_ids sort dedup insert_sorted
first_takes =
    next
      (take_lock [] (record { held = []; wanted = text "leaf-a" ∷ text "leaf-b" ∷ [] } ∷ []) []
        (text "leaf-a") (text "leaf-b" ∷ []) refl)
      done

ordered_device_ids-IsRising_example :
    IsRising (ordered_device_ids (text "leaf-b" ∷ text "leaf-a" ∷ text "leaf-b" ∷ []))
    × ((id : DeviceId)
        → any (same id) (ordered_device_ids (text "leaf-b" ∷ text "leaf-a" ∷ text "leaf-b" ∷ []))
          ≡ any (same id) (text "leaf-b" ∷ text "leaf-a" ∷ text "leaf-b" ∷ []))
ordered_device_ids-IsRising_example =
    ordered_device_ids-IsRising (text "leaf-b" ∷ text "leaf-a" ∷ text "leaf-b" ∷ [])

acquire_many_completes_example :
    (record { held = text "leaf-a" ∷ []; wanted = text "leaf-b" ∷ [] }
      ∷ record {
        held = [];
        wanted = ordered_device_ids (text "leaf-b" ∷ text "leaf-a" ∷ text "leaf-b" ∷ []);
      }
      ∷ [])
    ⟶* []
acquire_many_completes_example = acquire_many_completes crossed _ first_takes
