-- ===== src/L3/Ownership.antt =====
-- The egress interfaces that stand on the switch against those that are counted.
use basebox.Prelude.{
  ℕ, ◌+◌, ◌-◌, ◌≡◌, inl, inr, Bool, true, false, [], ◌∷◌, none, some, ℤ, pos, is_neg, arith, find,
  emplace, insert_or_assign, erase, nat_key, pair_key, find-emplace, find-erase,
  find-insert_or_assign, same, same_iff, same_refl, ◌==◌, not, ◌&&◌, if◌then◌else◌, Option-cases,
  Bool-cases,
}
use basebox.Sai.{Call, Log, SwitchInterface}
use basebox.L3.State.{L3Interface, EgressKey, NlL3, increment, decrement}
use basebox.L3.Egress.{create, use_egress, leave_egress, drop_unused, is_unused}
use basebox.L3.Users.{IsCounted, count_of}

-- The interface was created with that id, and not removed since.
unfoldable pub stands : SwitchInterface → ℕ → Log → Bool
stands swi id [] = false
stands swi id ((Call.l3_egress_create p v sm dm, rv) ∷ l) =
    if is_neg rv
    then stands swi id l
    else if swi.created_id l (Call.l3_egress_create p v sm dm) == id
    then true
    else stands swi id l
stands swi id ((Call.l3_egress_remove removed, rv) ∷ l) =
    if removed == id && not (is_neg rv) then false else stands swi id l
stands swi id ((_, rv) ∷ l) = stands swi id l

-- The switch never hands out the id of an interface that stands.
abbrev pub IsFresh : SwitchInterface → Type 0
IsFresh swi = (key : EgressKey) (l : Log) → stands swi (swi.created_id l (create key)) l ≡ false

-- The switch accepts every removal of an interface.
abbrev pub IsObliging : SwitchInterface → Type 0
IsObliging swi = (l : Log) (id : ℕ) → is_neg (swi.answer l (Call.l3_egress_remove id)) ≡ false

-- Every counted interface has a user and stands on the switch, no two are the same one, and every
-- interface that stands is counted.
pub record IsSound {Group : Type 0} (swi : SwitchInterface) (s : NlL3 Group) : Type 0 where
  pub counted : IsCounted s
  pub standing :
      (key : EgressKey) (i : L3Interface)
      → find key s.l3_interface_mapping ≡ some i
      → stands swi i.l3_interface_id s.log ≡ true
  pub distinct :
      (key other : EgressKey) (i j : L3Interface)
      → find key s.l3_interface_mapping ≡ some i
      → find other s.l3_interface_mapping ≡ some j
      → i.l3_interface_id ≡ j.l3_interface_id
      → key ≡ other
  pub owned :
      (id : ℕ)
      → stands swi id s.log ≡ true
      → (key : EgressKey) × (i : L3Interface) × (find key s.l3_interface_mapping ≡ some i)
        × (i.l3_interface_id ≡ id)

-- Only the counted interfaces and the log are spoken of.
pub IsSound-same :
    {Group : Type 0} (swi : SwitchInterface) (s t : NlL3 Group)
    → IsSound swi s
    → t.l3_interface_mapping ≡ s.l3_interface_mapping
    → t.log ≡ s.log
    → IsSound swi t
IsSound-same swi s t sound e f = record {
  counted = λ k j g. sound.counted k j (ground arith);
  standing = λ k j g. ground (arith, sound.standing k j);
  distinct = λ k o j h g g'. sound.distinct k o j h (ground arith) (ground arith);
  owned =
      λ id g. let (k, j, at_k, its) = sound.owned id (ground arith) in (k, j, ground arith, its);
}

module _ {Group : Type 0} (swi : SwitchInterface) (key : EgressKey) (s : NlL3 Group)
    (sound : IsSound swi s) where
  -- A changed count of an entry.
  recount-IsSound :
      (i : L3Interface) (n : ℕ)
      → find key s.l3_interface_mapping ≡ some i
      → IsSound swi (record s {
        l3_interface_mapping =
            insert_or_assign key (record i { refcnt = pos (n + 1) }) s.l3_interface_mapping;
      })
  unfolding count_of
  recount-IsSound i n known =
      let more : L3Interface = record i { refcnt = pos (n + 1) } in
      let found = (λ (k : EgressKey). find-insert_or_assign key k more s.l3_interface_mapping) in
      record {
        counted = λ k j e. ground (arith, found k, sound.counted k j, same_iff k key);
        standing = λ k j e.
            ground (arith, found k, sound.standing key i known, sound.standing k j, same_iff k key);
        distinct = λ k o j h e f g. ground (
          arith,
          found k,
          found o,
          same_iff k key,
          same_iff o key,
          sound.distinct k o j h,
          sound.distinct key o i h known,
          sound.distinct k key j i,
        );
        owned = λ id e.
            let (k, j, at_k, its) = sound.owned id e in
            elim (Bool-cases (same k key)) [
              | inl hit ↦ (
                key,
                more,
                ground (arith, found key, same_refl key),
                ground (arith, same_iff k key),
              )
              | inr miss ↦ (k, j, ground (arith, found k), its)
            ];
      }

  -- A new entry, for an interface that the switch has made.
  create-IsSound :
      (rv : ℤ)
      → IsFresh swi
      → find key s.l3_interface_mapping ≡ none
      → is_neg rv ≡ false
      → IsSound swi (record s {
        log = (create key, rv) ∷ s.log;
        l3_interface_mapping =
            emplace key
              (record { l3_interface_id = swi.created_id s.log (create key); refcnt = pos 1 })
              s.l3_interface_mapping;
      })
  unfolding count_of stands
  create-IsSound rv fresh new ok =
      let made : L3Interface = record {
        l3_interface_id = swi.created_id s.log (create key);
        refcnt = pos 1;
      } in
      let found = (λ (k : EgressKey). find-emplace key k made s.l3_interface_mapping) in
      record {
        counted = λ k j e. ground (arith, found k, sound.counted k j);
        standing = λ k j e. ground (arith, found k, sound.standing k j);
        distinct = λ k o j h e f g. ground (
          arith,
          found k,
          found o,
          same_iff k key,
          same_iff o key,
          fresh key s.log,
          sound.distinct k o j h,
          sound.standing k j,
          sound.standing o h,
        );
        owned = λ id e. elim (Bool-cases (swi.created_id s.log (create key) == id)) [
          | inl hit ↦ (key, made, ground (arith, found key, same_refl key), ground arith)
          | inr miss ↦
              let (k, j, at_k, its) = sound.owned id (ground arith) in
              (k, j, ground (arith, found k, same_iff k key), its)
        ];
      }

  -- A call that creates nothing and removes nothing that stands.
  refused-IsSound :
      (rv : ℤ) → is_neg rv ≡ true → IsSound swi (record s { log = (create key, rv) ∷ s.log })
  unfolding stands
  refused-IsSound rv failed = record {
    counted = sound.counted;
    standing = λ k j e. ground (arith, sound.standing k j);
    distinct = sound.distinct;
    owned = λ id e. sound.owned id (ground arith);
  }

  -- An entry that goes with its interface.
  remove-IsSound :
      (i : L3Interface) (rv : ℤ)
      → is_neg rv ≡ false
      → find key s.l3_interface_mapping ≡ some i
      → IsSound swi (record s {
        log = (Call.l3_egress_remove i.l3_interface_id, rv) ∷ s.log;
        l3_interface_mapping = erase key s.l3_interface_mapping;
      })
  unfolding stands
  remove-IsSound i rv removed known =
      let found = (λ (k : EgressKey). find-erase key k s.l3_interface_mapping) in
      record {
        counted = λ k j e. ground (arith, found k, sound.counted k j);
        standing = λ k j e.
            ground
              (arith, found k, sound.standing k j, sound.distinct key k i j known, same_iff k key);
        distinct = λ k o j h e f g. ground (arith, found k, found o, sound.distinct k o j h);
        owned = λ id e.
            let (k, j, at_k, its) = sound.owned id (ground arith) in
            (k, j, ground (arith, found k, same_iff k key), its);
      }

  pub use_egress-IsSound :
      (rv : ℤ) (id : ℕ) (t : NlL3 Group)
      → IsFresh swi
      → use_egress swi key s ≡ some (rv, (id, t))
      → IsSound swi t
  unfolding use_egress increment count_of
  use_egress-IsSound rv id t fresh e =
      let answer = swi.answer s.log (create key) in
      elim (Option-cases (find key s.l3_interface_mapping)) [
        | inr (i, known) ↦
            IsSound-same swi _ t (recount-IsSound i (count_of (some i)) known)
              (ground (arith, sound.counted key i known))
              (ground (arith, sound.counted key i known))
        | inl new ↦ elim (Bool-cases (is_neg answer)) [
          | inl failed ↦
              IsSound-same swi _ t (refused-IsSound answer failed) (ground arith) (ground arith)
          | inr ok ↦
              IsSound-same swi _ t (create-IsSound answer fresh new ok) (ground arith)
                (ground arith)
        ]
      ]

  pub leave_egress-IsSound :
      (rv : ℤ) (t : NlL3 Group)
      → IsObliging swi
      → leave_egress swi key s ≡ some (rv, t)
      → IsSound swi t
  unfolding leave_egress drop_unused is_unused decrement count_of
  leave_egress-IsSound rv t obliging e = elim (Option-cases (find key s.l3_interface_mapping)) [
    | inl new ↦ IsSound-same swi s t sound (ground arith) (ground arith)
    | inr (i, known) ↦ elim (Bool-cases (count_of (some i) == 1)) [
      | inl last ↦
          IsSound-same swi _ t
            (remove-IsSound i (swi.answer s.log (Call.l3_egress_remove i.l3_interface_id))
              (obliging s.log i.l3_interface_id) known)
            (ground (arith, sound.counted key i known)) (ground (arith, sound.counted key i known))
      | inr more ↦
          IsSound-same swi _ t (recount-IsSound i (count_of (some i) - 2) known)
            (ground (arith, sound.counted key i known)) (ground (arith, sound.counted key i known))
    ]
  ]
