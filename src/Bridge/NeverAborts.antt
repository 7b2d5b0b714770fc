-- ===== src/Bridge/NeverAborts.antt =====
-- The update of a link's VLANs does not abort, and a VLAN that is marked as one of a tunnel has one.
use mathlib.Core.Path.{subst}
use basebox.Prelude.{
  ℕ, ◌<◌, ◌≡◌, ◌∙◌, refl, sym, ap, inl, inr, Bool, true, false, List, [], ◌∷◌, some, ◌==◌, arith,
  Bool-cases, Option-cases, Method, All, Map, find, emplace, erase, find-emplace, find-erase,
  same_refl, nat_key,
}
use basebox.Sai.{SwitchInterface}
use basebox.Bridge.State.{Kernel, NlBridge}
use basebox.Bridge.Bits.{is_vid_set, set_vid, unset_vid}
use basebox.Bridge.Bitmaps.{is_vid_set-set_vid}
use basebox.Bridge.Run.{Run, after, ◌>=>◌, run, done, for_all}
use basebox.Bridge.Keeps.{tunnels}
use basebox.Bridge.Vlans.{join_domain, leave_domain}

-- A VLAN is known to the bitmap, and one that is set has a tunnel.
unfoldable pub IsDomain : List ℕ × Map ℕ ℕ → Type 0
IsDomain (bitmap, domain) =
    (v : ℕ)
    → v < 4096
    → (b : Bool) × ((is_vid_set v bitmap ≡ some b)
        × (b ≡ true → (tunnel_id : ℕ) × (find v domain ≡ some tunnel_id)))

-- A step that does not abort, and keeps that.
unfoldable pub IsSafe : {L : Type 0} → Run (NlBridge L) → Type 0
IsSafe {L = L} step =
    (s : NlBridge L)
    → IsDomain (tunnels s)
    → (t : NlBridge L) × ((step s ≡ some t) × IsDomain (tunnels t))

module _ {L : Type 0} where
  pub run-IsSafe :
      {A : Type 0} (m : Method (NlBridge L) A)
      → ((s : NlBridge L) → tunnels (m s).1 ≡ tunnels s)
      → IsSafe (run m)
  unfolding IsSafe
  run-IsSafe m keeps s h = ((m s).1, (refl, subst IsDomain (sym (keeps s)) h))

  pub then-IsSafe : (m n : Run (NlBridge L)) → IsSafe m → IsSafe n → IsSafe (m >=> n)
  unfolding IsSafe
  then-IsSafe m n safe_m safe_n s h =
      let (t, (e, h')) = safe_m s h in
      let (u, (e', h'')) = safe_n t h' in (u, (ap (λ o. after o n) e ∙ e', h''))

pub done-IsSafe : (L : Type 0) → IsSafe {L = L} done
unfolding IsSafe
done-IsSafe L s h = (s, (refl, h))

pub for_all-IsSafe :
    {L A : Type 0} (P : A → Type 0) (body : A → Run (NlBridge L))
    → ((x : A) → P x → IsSafe (body x))
    → (xs : List A) → All P xs
    → IsSafe (for_all body xs)
unfolding IsSafe for_all
for_all-IsSafe P body safe [] all s h = (s, (refl, h))
for_all-IsSafe P body safe (x ∷ xs) (p, all) s h =
    let (t, (e, h')) = safe x p s h in
    let (u, (e', h'')) = for_all-IsSafe P body safe xs all t h' in
    (u, (ap (λ o. after o (for_all body xs)) e ∙ e', h''))

emplace_has : (a v : ℕ) (m : Map ℕ ℕ) → (u : ℕ) × (find a (emplace a v m) ≡ some u)
emplace_has a v m = elim (Option-cases (find a (emplace a v m))) [
  | inl absent ↦ absurd (ground (arith, find-emplace a a v m, same_refl a, absent))
  | inr present ↦ present
]

emplace_keeps :
    (a j v w : ℕ) (m : Map ℕ ℕ) → find j m ≡ some w → (u : ℕ) × (find j (emplace a v m) ≡ some u)
emplace_keeps a j v w m h = elim (Option-cases (find j (emplace a v m))) [
  | inl absent ↦ absurd (ground (arith, find-emplace a j v m, absent, h))
  | inr present ↦ present
]

module _ (vid : ℕ) (b : Bool) (bitmap : List ℕ) (domain : Map ℕ ℕ) where
  set_vid-IsDomain :
      (tunnel_id : ℕ)
      → is_vid_set vid bitmap ≡ some b
      → IsDomain (bitmap, domain)
      → IsDomain (set_vid vid bitmap, emplace vid tunnel_id domain)
  unfolding IsDomain
  set_vid-IsDomain tunnel_id e h v below =
      let (c, (e', has)) = h v below in
      let reads = (is_vid_set-set_vid v vid b bitmap below e).0 in
      elim (Bool-cases (v == vid)) [
        | inl same_vid ↦
            let same : vid ≡ v = ground (arith, same_vid) in
            let (w, found) = emplace_has vid tunnel_id domain in
            (
              true,
              (
                ground (arith, reads, same_vid),
                λ _. (w, subst (λ x. find x (emplace vid tunnel_id domain) ≡ some w) same found),
              ),
            )
        | inr other_vid ↦ (
          c,
          (
            ground (arith, reads, other_vid, e'),
            λ set. let (w, found) = has set in emplace_keeps vid v tunnel_id w domain found,
          ),
        )
      ]

  unset_vid-IsDomain :
      is_vid_set vid bitmap ≡ some b
      → IsDomain (bitmap, domain)
      → IsDomain (unset_vid vid bitmap, erase vid domain)
  unfolding IsDomain
  unset_vid-IsDomain e h v below =
      let (c, (e', has)) = h v below in
      let reads = (is_vid_set-set_vid v vid b bitmap below e).1 in
      elim (Bool-cases (v == vid)) [
        | inl same_vid ↦
            (false, (ground (arith, reads, same_vid), λ set. absurd (ground (arith, set))))
        | inr other_vid ↦ (
          c,
          (
            ground (arith, reads, other_vid, e'),
            λ set.
                let (w, found) = has set in
                (w, ground (arith, find-erase vid v domain, found, other_vid)),
          ),
        )
      ]

module _ (k : Kernel) (swi : SwitchInterface) (bridge : k.nl.Link) where
  pub join_domain-IsSafe :
      (vid tunnel_id : ℕ) → vid < 4096 → IsSafe (join_domain k swi bridge vid tunnel_id)
  unfolding IsSafe join_domain tunnels IsDomain
  join_domain-IsSafe vid tunnel_id below s h =
      let (b, (e, has)) = h vid below in
      elim (Bool-cases b) [
        | inl known ↦ (s, (ground (arith, e, known), h))
        | inr new ↦ (
          record s {
            vxlan_domain = emplace vid tunnel_id s.vxlan_domain;
            vxlan_dom_bitmap = set_vid vid s.vxlan_dom_bitmap;
          },
          (
            ground (arith, e, new),
            set_vid-IsDomain vid b s.vxlan_dom_bitmap s.vxlan_domain tunnel_id e h,
          ),
        )
      ]

  pub leave_domain-IsSafe : (vid : ℕ) → vid < 4096 → IsSafe (leave_domain k swi bridge vid)
  unfolding IsSafe leave_domain tunnels IsDomain
  leave_domain-IsSafe vid below s h =
      let (b, (e, has)) = h vid below in
      (_, (refl, unset_vid-IsDomain vid b s.vxlan_dom_bitmap s.vxlan_domain e h))
