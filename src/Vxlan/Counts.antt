-- ===== src/Vxlan/Counts.antt =====
-- The counts of an endpoint for each VNI against its count for all.
use basebox.Prelude.{
  ℕ, ◌+◌, ◌%◌, ◌^◌, ◌<◌, ◌≡◌, [], ◌∷◌, arith, Map, find, insert_or_assign, nat_key,
}
use basebox.Vxlan.State.{EndpointTunnelPort, up, down}
use basebox.Vxlan.Endpoints.{vni_users, one_more, one_less}

unfoldable pub total : Map ℕ ℕ → ℕ
total [] = 0
total ((vni, n) ∷ counts) = n + total counts

abbrev IsAbove : ℕ → Map ℕ ℕ → Type 0
IsAbove vni [] = Unit {0}
IsAbove vni ((other, n) ∷ counts) = vni < other

unfoldable IsSorted : Map ℕ ℕ → Type 0
IsSorted [] = Unit {0}
IsSorted ((vni, n) ∷ counts) = IsAbove vni counts × IsSorted counts

vni_users-above :
    (vni : ℕ) (counts : Map ℕ ℕ) → IsAbove vni counts → IsSorted counts → vni_users vni counts ≡ 0
unfolding vni_users IsSorted find
vni_users-above vni [] above sorted = ground arith
vni_users-above vni ((other, n) ∷ []) above sorted = ground arith
vni_users-above vni ((other, n) ∷ (third, m) ∷ counts) above sorted =
    ground (arith, vni_users-above vni ((third, m) ∷ counts))

total-insert_or_assign :
    (vni n : ℕ) (counts : Map ℕ ℕ)
    → IsSorted counts
    → total (insert_or_assign vni n counts) + vni_users vni counts ≡ total counts + n
unfolding total vni_users insert_or_assign find IsSorted
total-insert_or_assign vni n [] sorted = ground arith
total-insert_or_assign vni n ((other, m) ∷ counts) sorted =
    ground (arith, total-insert_or_assign vni n counts, vni_users-above vni ((other, m) ∷ counts))

insert-IsAbove :
    (bound vni n : ℕ) (counts : Map ℕ ℕ)
    → bound < vni
    → IsAbove bound counts
    → IsAbove bound (insert_or_assign vni n counts)
unfolding insert_or_assign
insert-IsAbove bound vni n [] h above = h
insert-IsAbove bound vni n ((other, m) ∷ counts) h above = ground arith

insert-IsSorted :
    (vni n : ℕ) (counts : Map ℕ ℕ) → IsSorted counts → IsSorted (insert_or_assign vni n counts)
unfolding insert_or_assign IsSorted
insert-IsSorted vni n [] sorted = (tt, tt)
insert-IsSorted vni n ((other, m) ∷ counts) sorted =
    ground (arith, insert-IsSorted vni n counts sorted.1, insert-IsAbove other vni n counts)

-- The count for all VNIs is that of its users, for each VNI, modulo 2^32.
pub record IsBalanced (e : EndpointTunnelPort) : Type 0 where
  sorted : IsSorted e.refcnt_vni
  pub adds_up : e.refcnt ≡ total e.refcnt_vni % 2 ^ 32

pub one_more-IsBalanced :
    (vni : ℕ) (e : EndpointTunnelPort) → IsBalanced e → IsBalanced (one_more vni e)
unfolding one_more
one_more-IsBalanced vni e h =
    let n = up (vni_users vni e.refcnt_vni) in
    record {
      sorted = insert-IsSorted vni n e.refcnt_vni h.sorted;
      adds_up = omega (arith, h.adds_up, total-insert_or_assign vni n e.refcnt_vni h.sorted);
    }

pub one_less-IsBalanced :
    (vni : ℕ) (e : EndpointTunnelPort) → IsBalanced e → IsBalanced (one_less vni e)
unfolding one_less
one_less-IsBalanced vni e h =
    let n = down (vni_users vni e.refcnt_vni) in
    record {
      sorted = insert-IsSorted vni n e.refcnt_vni h.sorted;
      adds_up = omega (arith, h.adds_up, total-insert_or_assign vni n e.refcnt_vni h.sorted);
    }

-- A new endpoint has one user.
pub new-IsBalanced :
    (vni lport_id nh_id : ℕ)
    → IsBalanced
        (record { refcnt = 1; lport_id = lport_id; nh_id = nh_id; refcnt_vni = (vni, 1) ∷ [] })
unfolding total IsSorted
new-IsBalanced vni lport_id nh_id = record { sorted = (tt, tt); adds_up = omega arith }
