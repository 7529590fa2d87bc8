-- ===== src/Remote/ReadOp/Servers.antt =====
-- The servers of the replicas of a block, as a read visits them.
use sandook.Base.{
  suc, ◌≡◌, refl, sym, subst, ◌∙◌, ap, ◌⊎◌, inl, inr, ◌≢◌, ◌≤◌, [], ◌∷◌, some, length, Bool-cases,
  ==_iff, ne_of_==, Bool, true, false, ltb, ◌==◌, if◌then◌else◌, arith,
}
use sandook.Types.{ServerId, ServerBlockInfo, ServerReplicaBlockInfoList}
use sandook.Selection.{ServerSet, insert}
use sandook.Selection.Members.{In}
use sandook.Remote.ReadOp.{find_info, erase, server_ids}

-- The servers of the replicas.
abbrev pub IsServer : ServerReplicaBlockInfoList → ServerId → Type 0
IsServer blks id = (id ≡ blks.front.info.server_id) ⊎ (id ≡ blks.back.info.server_id)

pub find_info-some :
    (blks : ServerReplicaBlockInfoList) (id : ServerId)
    → IsServer blks id
    → (info : ServerBlockInfo) × (find_info blks id ≡ some info)
unfolding find_info
find_info-some blks id h = elim (Bool-cases (blks.front.info.server_id == id)) [
  | inl e ↦ (blks.front.info, rw e refl)
  | inr e ↦ (blks.back.info, rw e (ground (arith, h, e)))
]

In-if :
    (b : Bool) (x y : ServerId) (ys zs : ServerSet)
    → In x (if b then ys else y ∷ zs)
    → (In x zs → In x ys)
    → In x (y ∷ ys)
In-if true x y ys zs h f = inr h
In-if false x y ys zs (inl e) f = inl e
In-if false x y ys zs (inr m) f = inr (f m)

pub In-erase : (id x : ServerId) (xs : ServerSet) → In x (erase id xs) → In x xs
unfolding erase
In-erase id x [] h = h
In-erase id x (y ∷ ys) h = In-if (y == id) x y ys (erase id ys) h (In-erase id x ys)

pub erase-In : (id x : ServerId) (xs : ServerSet) → id ≢ x → In x xs → In x (erase id xs)
unfolding erase
erase-In id x [] n h = h
erase-In id x (y ∷ ys) n h = elim (Bool-cases (y == id)) [
  | inl e ↦ rw e (elim h [ inl p ↦ absurd (n (ground (arith, e, p))) | inr m ↦ m ])
  | inr e ↦ rw e (elim h [ inl p ↦ inl p | inr m ↦ inr (erase-In id x ys n m) ])
]

pub length-erase :
    (id : ServerId) (xs : ServerSet) → In id xs → suc (length (erase id xs)) ≡ length xs
unfolding erase
length-erase id [] h = absurd h
length-erase id (y ∷ ys) h = elim (Bool-cases (y == id)) [
  | inl e ↦ rw e refl
  | inr e ↦
      rw e (elim h [
        | inl p ↦ absurd (ne_of_== y id e (sym p))
        | inr m ↦ ap suc (length-erase id ys m)
      ])
]

-- The set has one element or two, in one of two orders.
server_ids-cases :
    (blks : ServerReplicaBlockInfoList)
    → let a = blks.front.info.server_id in
      let b = blks.back.info.server_id in
      ((server_ids blks ≡ a ∷ []) × (a ≡ b))
      ⊎ ((server_ids blks ≡ a ∷ b ∷ []) ⊎ (server_ids blks ≡ b ∷ a ∷ []))
unfolding server_ids insert
server_ids-cases blks =
    let a = blks.front.info.server_id in
    let b = blks.back.info.server_id in
    elim (Bool-cases (a == b)) [
      | inl e ↦ inl (rw e refl, (==_iff a b).0 e)
      | inr e ↦ elim (Bool-cases (ltb a b)) [
        | inl f ↦ inr (inl (rw (e, f) refl))
        | inr f ↦ inr (inr (rw (e, f) refl))
      ]
    ]

pub none_left : (xs : ServerSet) → suc (length xs) ≤ 0 → ⊥
none_left xs l = omega (arith, l)

pub server_ids-IsServer :
    (blks : ServerReplicaBlockInfoList) (id : ServerId) → In id (server_ids blks) → IsServer blks id
server_ids-IsServer blks id h = elim (server_ids-cases blks) [
  | inl (e, p) ↦ elim (subst (λ l. In id l) e h) [ inl q ↦ inl q | inr m ↦ absurd m ]
  | inr (inl e) ↦ elim (subst (λ l. In id l) e h) [
    | inl q ↦ inl q
    | inr (inl q) ↦ inr q
    | inr (inr m) ↦ absurd m
  ]
  | inr (inr e) ↦ elim (subst (λ l. In id l) e h) [
    | inl q ↦ inr q
    | inr (inl q) ↦ inl q
    | inr (inr m) ↦ absurd m
  ]
]

pub server_ids-In :
    (blks : ServerReplicaBlockInfoList) (id : ServerId) → IsServer blks id → In id (server_ids blks)
server_ids-In blks id h = elim (server_ids-cases blks) [
  | inl (e, p) ↦ rw e (elim h [ inl q ↦ inl q | inr q ↦ inl (q ∙ sym p) ])
  | inr (inl e) ↦ rw e (elim h [ inl q ↦ inl q | inr q ↦ inr (inl q) ])
  | inr (inr e) ↦ rw e (elim h [ inl q ↦ inr (inl q) | inr q ↦ inl q ])
]

pub length-server_ids : (blks : ServerReplicaBlockInfoList) → length (server_ids blks) ≤ 2
length-server_ids blks = elim (server_ids-cases blks) [
  | inl (e, p) ↦ rw e (omega arith)
  | inr (inl e) ↦ rw e (omega arith)
  | inr (inr e) ↦ rw e (omega arith)
]
