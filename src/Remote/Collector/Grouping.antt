-- ===== src/Remote/Collector/Grouping.antt =====
-- The blocks of a collection by their servers, and the batches they are cut into.
use mathlib.Core.List.{append_assoc, append-nil}
use sandook.Base.{
  ℕ, zero, suc, ◌-◌, ◌≡◌, refl, sym, ap, subst, ◌∙◌, ◌<◌, ◌≤◌, ◌≢◌, ◌⊎◌, inl, inr, ◌↔◌, Bool, true,
  false, if◌then◌else◌, ◌==◌, min, List, [], ◌∷◌, ◌++◌, length, take, All, Distinct, Bool-cases,
  ==_iff, arith,
}
use sandook.Status.{ok, err, Error}
use sandook.Types.{
  ServerId, BlockAddr, ServerBlockInfo, ServerReplicaBlockInfoList, k_discard_batch,
}
use sandook.Selection.Members.{In}
use sandook.Resolver.{BlockResolver, get_and_reset_discarded_blocks}
use sandook.Remote.Collector.{ServerBlocks, blocks_of, emplace_back, group_blocks, drop}

-- The block, if it is on server `id`.
abbrev pub on : ServerId → ServerBlockInfo → List BlockAddr
on id info = if info.server_id == id then info.block_addr ∷ [] else []

-- The blocks on a server, of all replicas of some mappings.
abbrev pub addrs_on : ServerId → List ServerReplicaBlockInfoList → List BlockAddr
addrs_on id [] = []
addrs_on id (b ∷ bs) = on id b.front.info ++ (on id b.back.info ++ addrs_on id bs)

-- What a server was sent, in the order in which it was.
abbrev pub sent_to : ServerId → List (ServerId × List BlockAddr) → List BlockAddr
sent_to id [] = []
sent_to id ((a, blks) ∷ rest) = if a == id then sent_to id rest ++ blks else sent_to id rest

-- A batch fits into a message.
abbrev pub Fits : ServerId × List BlockAddr → Type 0
Fits m = (0 < length m.1) × (length m.1 ≤ k_discard_batch)

-- A walk of a hash map visits each server that has blocks once, and no others.
abbrev pub Walks : (ServerBlocks → List ServerId) → ServerBlocks → Type 0
Walks visited groups =
    Distinct (visited groups)
    × ((id : ServerId) → In id (visited groups) ↔ (blocks_of id groups ≢ []))

-- The resolver without the mappings that were discarded.
abbrev pub emptied : BlockResolver → BlockResolver
emptied r = record r { discard_list = [] }

same_key : (a b c : ServerId) → (a == b) ≡ true → (a == c) ≡ (b == c)
same_key a b c e = ap (λ z. z == c) ((==_iff a b).0 e)

other_key : (a b c : ServerId) → (a == b) ≡ false → (a == c) ≡ true → (b == c) ≡ false
other_key a b c e f = ground (arith, e, f)

blocks_of-emplace_back :
    (id : ServerId) (info : ServerBlockInfo) (acc : ServerBlocks)
    → blocks_of id (emplace_back info acc) ≡ blocks_of id acc ++ on id info
unfolding blocks_of emplace_back
blocks_of-emplace_back id info [] = refl
blocks_of-emplace_back id info ((a, blks) ∷ rest) = elim (Bool-cases (a == info.server_id)) [
  | inl e ↦ elim (Bool-cases (a == id)) [
    | inl f ↦ rw (e, f) (rw (sym (same_key a info.server_id id e) ∙ f) refl)
    | inr f ↦ rw (e, f) (rw (sym (same_key a info.server_id id e) ∙ f) (sym (append-nil _)))
  ]
  | inr e ↦ elim (Bool-cases (a == id)) [
    | inl f ↦
        rw (e, f)
          (subst (λ z. blks ≡ blks ++ (if z then info.block_addr ∷ [] else []))
            (sym (other_key a info.server_id id e f)) (sym (append-nil _)))
    | inr f ↦ rw (e, f) (blocks_of-emplace_back id info rest)
  ]
]

pub blocks_of-group_blocks :
    (id : ServerId) (blks : List ServerReplicaBlockInfoList) (acc : ServerBlocks)
    → blocks_of id (group_blocks blks acc) ≡ blocks_of id acc ++ addrs_on id blks
unfolding group_blocks
blocks_of-group_blocks id [] acc = sym (append-nil _)
blocks_of-group_blocks id (b ∷ bs) acc =
    blocks_of-group_blocks id bs (emplace_back b.back.info (emplace_back b.front.info acc))
    ∙ ap (λ l. l ++ addrs_on id bs)
        (blocks_of-emplace_back id b.back.info (emplace_back b.front.info acc)
          ∙ ap (λ l. l ++ on id b.back.info) (blocks_of-emplace_back id b.front.info acc))
    ∙ simp append_assoc

pub take-drop : (n : ℕ) (xs : List BlockAddr) → take n xs ++ drop n xs ≡ xs
unfolding drop
take-drop zero xs = refl
take-drop (suc n) [] = refl
take-drop (suc n) (x ∷ xs) = ap (λ l. x ∷ l) (take-drop n xs)

pub length-take : (n : ℕ) (xs : List BlockAddr) → length (take n xs) ≡ min n (length xs)
length-take zero xs = omega arith
length-take (suc n) [] = omega arith
length-take (suc n) (x ∷ xs) = omega (arith, length-take n xs)

pub nothing : (b : Bool) → ◌≡◌ {A = List BlockAddr} [] (if b then [] else [])
nothing true = refl
nothing false = refl

pub no_rounds : (xs : List BlockAddr) → suc (length xs) ≤ 0 → ⊥
no_rounds xs h = omega (arith, h)

pub length-drop : (n : ℕ) (xs : List BlockAddr) → length (drop n xs) ≡ length xs - n
unfolding drop
length-drop zero xs = omega arith
length-drop (suc n) [] = omega arith
length-drop (suc n) (x ∷ xs) = omega (arith, length-drop n xs)

pub empty_or_not : (l : List BlockAddr) → (l ≡ []) ⊎ (l ≢ [])
empty_or_not [] = inl refl
empty_or_not (x ∷ xs) = inr (λ e. cc)

pub All-not : (ids : List ServerId) (j : ServerId) → All (λ y. j ≢ y) ids → ¬ In j ids
All-not [] j a m = absurd m
All-not (x ∷ xs) j a (inl p) = absurd (a.0 p)
All-not (x ∷ xs) j a (inr i) = All-not xs j a.1 i

pub none_discarded :
    (r : BlockResolver) → r.discard_list ≡ [] → get_and_reset_discarded_blocks r ≡ err Error.enoent
unfolding get_and_reset_discarded_blocks
none_discarded r e = rw e refl

pub some_discarded :
    (r : BlockResolver) (x : ServerReplicaBlockInfoList) (xs : List ServerReplicaBlockInfoList)
    → r.discard_list ≡ x ∷ xs
    → get_and_reset_discarded_blocks r ≡ ok (x ∷ xs, record r { discard_list = [] })
unfolding get_and_reset_discarded_blocks
some_discarded r x xs e = rw e refl
