-- ===== src/Vlan/Tests.antt =====
-- The theorems on ports at concrete inputs.
use basebox.Prelude.{
  ◌≡◌, refl, inr, true, false, [], ◌∷◌, arith, find, nat_key, pair_key, for_each, until_error,
  contains,
}
use basebox.Sai.{get_port_type, combine_port_type, get_port_num, port_id_fields}
use basebox.Vlan.State.{is_vid_valid}
use basebox.Vlan.Entries.{Entry, installed}
use basebox.Vlan.Ingress.{members, add_ingress_vlan, remove_ingress_vlan}
use basebox.Vlan.Port.{enable_vlan, enable_egress_members, add_first_user, add_vlan, remove_vlan}
use basebox.Vlan.Rollback.{enable_vlan_rollback}
use basebox.Vlan.Enabled.{enable_vlan_everywhere}
use basebox.Vlan.Refcount.{users, users-add_vlan, users-remove_vlan}
use basebox.Vlan.History.{Request, serve_all, serve_all-InStep, InStep}
use basebox.Vlan.Fixtures.{bond, net, willing, refusing, empty, before, shared}

port_id_fields_example :
    (get_port_type (combine_port_type 5 2) ≡ 2) × (get_port_num (combine_port_type 5 2) ≡ 5)
port_id_fields_example = port_id_fields 5 2 (omega arith) (omega arith)

enable_vlan_rollback_example : installed (Entry.egress 9 7) before.log ≡ true
unfolding enable_vlan enable_egress_members add_ingress_vlan remove_ingress_vlan members
    get_port_type for_each until_error installed
enable_vlan_rollback_example =
    enable_vlan_rollback net refusing bond 5 true 0 (Entry.egress 9 7) before
      ((λ l p v u r. refl), (λ l p v. refl)) refl refl

-- The failed attempt left nothing on the members that it had reached.
enable_vlan_test :
    let t = (enable_vlan net refusing bond 5 true 0 before).1 in
    (installed (Entry.ingress 1 5 false 0) t.log ≡ false)
    × (installed (Entry.egress 1 5) t.log ≡ false)
unfolding enable_vlan enable_egress_members add_ingress_vlan remove_ingress_vlan members
    get_port_type for_each until_error installed
enable_vlan_test = (refl, refl)

enable_vlan_everywhere_example :
    let t = (enable_vlan net willing bond 5 true 0 before).1 in
    (installed (Entry.ingress 2 5 false 0) t.log ≡ true)
    × (installed (Entry.egress 2 5) t.log ≡ true)
unfolding enable_vlan enable_egress_members add_ingress_vlan remove_ingress_vlan members
    get_port_type for_each until_error contains
enable_vlan_everywhere_example =
    enable_vlan_everywhere net willing bond 5 true 0 2 (inr refl) before refl

users-add_vlan_example : users 3 5 (add_vlan net willing 3 5 true empty).1 ≡ 1
unfolding add_vlan add_first_user enable_vlan enable_egress_members add_ingress_vlan members
    get_port_type for_each until_error is_vid_valid find
users-add_vlan_example =
    users-add_vlan net willing 3 5 true empty refl (omega arith) refl 3 5 (omega arith) refl

users-remove_vlan_example : users 3 5 (remove_vlan net willing 3 5 true shared).1 ≡ 1
unfolding is_vid_valid find
users-remove_vlan_example =
    users-remove_vlan net willing 3 5 true shared refl (omega arith) refl 3 5 (omega arith)
      (omega arith)

serve_all-InStep_example : InStep 3 (
    serve_all net willing
      (Request.adds 3 5 true ∷ Request.adds 3 5 true ∷ Request.removes 3 5 true ∷ [])
      empty)
unfolding members get_port_type find
serve_all-InStep_example =
    serve_all-InStep net willing
      (Request.adds 3 5 true ∷ Request.adds 3 5 true ∷ Request.removes 3 5 true ∷ []) 0 empty
      (refl, (refl, (refl, tt))) (omega arith) (λ port vid n h. cc)
