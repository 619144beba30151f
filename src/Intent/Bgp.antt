-- ===== src/Intent/Bgp.antt =====
-- intent/validation.rs: the checks of BGP processes and neighbours.
use aria_underlay.Base.{Text, List, [], ◌∷◌, ◌==◌, map, trim, text, text_ord, pair_ord}
use aria_underlay.Base.BTree.{BTreeSet, contains, collect_set}
use aria_underlay.Base.Errors.{UnderlayResult, str, fail_if, invalid, ◌>>◌, ◌>>=◌}
use aria_underlay.Base.Loops.{try_fold, try_seen, try_some, insert_new}
use aria_underlay.Model.{DeviceId}
use aria_underlay.Intent.{
  BgpProcessIntent, BgpProcessDeleteIntent, BgpNeighborIntent, BgpNeighborDeleteIntent,
}
use aria_underlay.Intent.Checks.{
  validate_device_id, ensure_known_member, validate_non_empty, validate_ipv4_text,
}

-- A process is keyed by its device and VRF, a neighbour by its address besides.
abbrev pub ProcessKey : Type 0
ProcessKey = DeviceId × Text

abbrev pub NeighborKey : Type 0
NeighborKey = ProcessKey × Text

unfoldable pub validate_router_id : Text → UnderlayResult (Unit {0})
validate_router_id router_id = do
  validate_non_empty (text "BGP router_id") (trim router_id)
  validate_ipv4_text (text "BGP router_id") (trim router_id)

-- The body of the loop over processes.
unfoldable pub validate_bgp_process :
    BTreeSet DeviceId
    → Text
    → BTreeSet ProcessKey
    → BgpProcessIntent
    → UnderlayResult (BTreeSet ProcessKey)
validate_bgp_process member_ids context upserts p = do
  validate_device_id (text "BGP process device_id") p.device_id
  ensure_known_member member_ids p.device_id (text "BGP process")
  validate_non_empty (text "BGP process vrf") p.vrf
  fail_if (p.local_as == 0) (
      invalid "{} BGP process {}/{} has invalid local_as 0"
        (str context ∷ str p.device_id ∷ str (trim p.vrf) ∷ []))
  try_some validate_router_id p.router_id
  insert_new (p.device_id, trim p.vrf) upserts
      (invalid "{} has duplicate BGP process {}/{}"
        (str context ∷ str p.device_id ∷ str (trim p.vrf) ∷ []))

-- The body of the loop over the processes to delete.
unfoldable pub validate_bgp_process_delete :
    BTreeSet ProcessKey
    → BTreeSet DeviceId
    → Text
    → BTreeSet ProcessKey
    → BgpProcessDeleteIntent
    → UnderlayResult (BTreeSet ProcessKey)
validate_bgp_process_delete upserts member_ids context delete_keys p = do
  validate_device_id (text "BGP process delete device_id") p.device_id
  ensure_known_member member_ids p.device_id (text "BGP process delete")
  validate_non_empty (text "BGP process delete vrf") p.vrf
  fail_if (contains (p.device_id, trim p.vrf) upserts) (
      invalid "{} cannot upsert and delete BGP process {}/{} in the same request"
        (str context ∷ str p.device_id ∷ str (trim p.vrf) ∷ []))
  insert_new (p.device_id, trim p.vrf) delete_keys
      (invalid "{} has duplicate BGP process delete {}/{}"
        (str context ∷ str p.device_id ∷ str (trim p.vrf) ∷ []))

unfoldable pub validate_bgp_processes :
    List BgpProcessIntent
    → List BgpProcessDeleteIntent
    → BTreeSet DeviceId
    → Text
    → UnderlayResult (Unit {0})
validate_bgp_processes processes deletes member_ids context = do
  upserts ← try_fold (validate_bgp_process member_ids context) [] processes
  try_seen (validate_bgp_process_delete upserts member_ids context) [] deletes

-- The body of the loop over neighbours.
unfoldable pub validate_bgp_neighbor :
    BTreeSet ProcessKey
    → BTreeSet DeviceId
    → Text
    → BTreeSet NeighborKey
    → BgpNeighborIntent
    → UnderlayResult (BTreeSet NeighborKey)
validate_bgp_neighbor deleted_process_keys member_ids context upserts n = do
  validate_device_id (text "BGP neighbor device_id") n.device_id
  ensure_known_member member_ids n.device_id (text "BGP neighbor")
  validate_non_empty (text "BGP neighbor vrf") n.vrf
  validate_non_empty (text "BGP neighbor address") n.address
  validate_ipv4_text (text "BGP neighbor address") (trim n.address)
  fail_if (contains (n.device_id, trim n.vrf) deleted_process_keys) (
      invalid
        "{} cannot delete BGP process {}/{} and upsert BGP neighbor {}/{}/{} in the same request"
        (str context
          ∷ str n.device_id
          ∷ str (trim n.vrf)
          ∷ str n.device_id
          ∷ str (trim n.vrf)
          ∷ str (trim n.address)
          ∷ []))
  fail_if (n.remote_as == 0) (
      invalid "{} BGP neighbor {}/{}/{} has invalid remote_as 0"
        (str context ∷ str n.device_id ∷ str (trim n.vrf) ∷ str (trim n.address) ∷ []))
  insert_new ((n.device_id, trim n.vrf), trim n.address) upserts
      (invalid "{} has duplicate BGP neighbor {}/{}/{}"
        (str context ∷ str n.device_id ∷ str (trim n.vrf) ∷ str (trim n.address) ∷ []))

-- The body of the loop over the neighbours to delete.
unfoldable pub validate_bgp_neighbor_delete :
    BTreeSet NeighborKey
    → BTreeSet DeviceId
    → Text
    → BTreeSet NeighborKey
    → BgpNeighborDeleteIntent
    → UnderlayResult (BTreeSet NeighborKey)
validate_bgp_neighbor_delete upserts member_ids context delete_keys n = do
  validate_device_id (text "BGP neighbor delete device_id") n.device_id
  ensure_known_member member_ids n.device_id (text "BGP neighbor delete")
  validate_non_empty (text "BGP neighbor delete vrf") n.vrf
  validate_non_empty (text "BGP neighbor delete address") n.address
  validate_ipv4_text (text "BGP neighbor delete address") (trim n.address)
  fail_if (contains ((n.device_id, trim n.vrf), trim n.address) upserts) (
      invalid "{} cannot upsert and delete BGP neighbor {}/{}/{} in the same request"
        (str context ∷ str n.device_id ∷ str (trim n.vrf) ∷ str (trim n.address) ∷ []))
  insert_new ((n.device_id, trim n.vrf), trim n.address) delete_keys
      (invalid "{} has duplicate BGP neighbor delete {}/{}/{}"
        (str context ∷ str n.device_id ∷ str (trim n.vrf) ∷ str (trim n.address) ∷ []))

abbrev pub deleted_key : BgpProcessDeleteIntent → ProcessKey
deleted_key p = (p.device_id, trim p.vrf)

unfoldable pub validate_bgp_neighbors :
    List BgpNeighborIntent
    → List BgpNeighborDeleteIntent
    → List BgpProcessDeleteIntent
    → BTreeSet DeviceId
    → Text
    → UnderlayResult (Unit {0})
validate_bgp_neighbors neighbors deletes process_deletes member_ids context = do
  upserts ←
      try_fold
        (validate_bgp_neighbor (collect_set (map deleted_key process_deletes)) member_ids context)
        [] neighbors
  try_seen (validate_bgp_neighbor_delete upserts member_ids context) [] deletes
