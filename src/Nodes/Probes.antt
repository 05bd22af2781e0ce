-- ===== src/Nodes/Probes.antt =====
-- What `merge_probe_results` of services/aimili-egress/node_pool.py returns.
use mathlib.Core.List.{Memᴰ}
use aimili_gateway.Prelude.{
  ◌+◌, leb, All-imply, text_eq_refl, Text, false, true, is_empty, ◌||◌, append_assoc, ℕ, zero, suc,
  ◌≤◌, ◌≡◌, refl, sym, ap, ◌∙◌, not, ◌&&◌, ◌⊎◌, List, [], ◌∷◌, ◌++◌, map, take, length,
  length-append, keep, All, arith, ltb, Bool-cases, inl, inr, if◌then◌else◌,
}
use aimili_gateway.Prelude.Folds.{fold, fold_inv, fold_all}
use aimili_gateway.Nodes.Node.{Node, node_id, is_available, Chosen, choose, is_repeated}
use aimili_gateway.Nodes.Merge.{Probed, probe_result, merge_probe_results}
use aimili_gateway.Nodes.Unique.{
  IsDistinct, ids, is_in-append, append-IsDistinct, ids-append, All-append, is_in-choose,
}
use aimili_gateway.Nodes.Membership.{All-Memᴰ}
use aimili_gateway.Prelude.Strings.{is_in}

append_nil {ℓ} : {A : Type ℓ} (xs : List A) → xs ++ [] ≡ xs
append_nil [] = refl
append_nil (x ∷ xs) = ap (λ l. x ∷ l) (append_nil xs)

take_all {ℓ} : {A : Type ℓ} (n : ℕ) (xs : List A) → length xs ≤ n → take n xs ≡ xs
take_all zero [] h = refl
take_all zero (x ∷ xs) h = absurd (omega (arith, h))
take_all (suc n) [] h = refl
take_all (suc n) (x ∷ xs) h = ap (λ l. x ∷ l) (take_all n xs (omega (arith, h)))

length-take {ℓ} : {A : Type ℓ} (n : ℕ) (xs : List A) → length (take n xs) ≤ n
length-take zero xs = omega arith
length-take (suc n) [] = omega arith
length-take (suc n) (x ∷ xs) = omega (arith, length-take n xs)

length-take_full {ℓ} : {A : Type ℓ} (n : ℕ) (xs : List A) → n ≤ length xs → length (take n xs) ≡ n
length-take_full zero xs h = refl
length-take_full (suc n) [] h = absurd (omega (arith, h))
length-take_full (suc n) (x ∷ xs) h = omega (arith, length-take_full n xs (omega (arith, h)))

choose-Covered :
    (n : Node) (p : Probed)
    → ((x : Text) → is_in x p.chosen.seen ≡ is_in x (ids p.chosen.nodes))
    → (x : Text) → is_in x (choose n p.chosen).seen ≡ is_in x (ids (choose n p.chosen).nodes)
unfolding choose is_in
choose-Covered n p h x = ground (arith, h x, is_in-choose n p.chosen x)

length-choose : (n : Node) (c : Chosen) → length (choose n c).nodes ≡ length c.nodes + 1
unfolding choose
length-choose n c = omega (arith, length-append c.nodes (n ∷ []))

-- The set of identifiers is that of the nodes taken.
abbrev Covered : Probed → Type 0
Covered p = (x : Text) → is_in x p.chosen.seen ≡ is_in x (ids p.chosen.nodes)

module _ (pool results : List Node) (target : ℕ) where
  -- What is added comes after the pool, was probed, is available, is new, and fits.
  record Extends (p : Probed) : Type 0 where
    extra : List Node
    joined : p.chosen.nodes ≡ pool ++ extra
    working : All (λ n. Memᴰ n results × (is_available n ≡ true)) extra
    fresh : All (λ n. (is_empty (node_id n) ≡ false) × (is_in (node_id n) (ids pool) ≡ false)) extra
    different : IsDistinct (ids extra)
    fits : (extra ≡ []) ⊎ (length (pool ++ extra) ≤ target)

  probe-Covered : (p : Probed) (n : Node) → Covered p → Covered (probe_result target p n)
  unfolding probe_result
  probe-Covered p n h = elim (Bool-cases (is_available n)) [
    | inr a ↦ rw a h
    | inl a ↦
        elim (Bool-cases (not (is_repeated n p.chosen) && ltb (length p.chosen.nodes) target)) [
          | inr b ↦ rw (a, b) h
          | inl b ↦ rw (a, b) (choose-Covered n p h)
        ]
  ]

  -- A node that is not repeated is in no part of what was joined.
  new_in :
      (p : Probed) (n : Node) (extra : List Node)
      → Covered p
      → p.chosen.nodes ≡ pool ++ extra
      → is_repeated n p.chosen ≡ false
      → (is_empty (node_id n) ≡ false)
        × (is_in (node_id n) (ids pool) ≡ false)
        × (is_in (node_id n) (ids extra) ≡ false)
  unfolding is_repeated
  new_in p n extra c j r =
      let both : is_in (node_id n) (ids p.chosen.nodes)
          ≡ is_in (node_id n) (ids pool) || is_in (node_id n) (ids extra) =
        rw (j, ids-append pool extra) (is_in-append (node_id n) (ids pool) (ids extra)) in
      (
        ground (arith, r),
        ground (arith, r, c (node_id n), both),
        ground (arith, r, c (node_id n), both),
      )

  probe-Extends :
      (p : Probed) (n : Node)
      → Memᴰ n results
      → Covered p
      → Extends p
      → Extends (probe_result target p n)
  unfolding probe_result choose
  probe-Extends p n m c h = elim (Bool-cases (is_available n)) [
    | inr a ↦ rw a (record {
      extra = h.extra;
      joined = h.joined;
      working = h.working;
      fresh = h.fresh;
      different = h.different;
      fits = h.fits;
    })
    | inl a ↦
        elim (Bool-cases (not (is_repeated n p.chosen) && ltb (length p.chosen.nodes) target)) [
          | inr b ↦ rw (a, b) h
          | inl b ↦
              let (e, o, x) = new_in p n h.extra c h.joined (ground (arith, b)) in
              rw (a, b)
                (record {
                  extra = h.extra ++ n ∷ [];
                  joined = ap (λ l. l ++ n ∷ []) h.joined ∙ append_assoc pool h.extra (n ∷ []);
                  working = All-append _ h.extra (n ∷ []) h.working ((m, a), tt);
                  fresh = All-append _ h.extra (n ∷ []) h.fresh ((e, o), tt);
                  different =
                      rw (ids-append h.extra (n ∷ []))
                        (append-IsDistinct (ids h.extra) (node_id n) h.different x);
                  fits = inr (
                      rw (← append_assoc pool h.extra (n ∷ []), ← h.joined)
                        (ground (arith, b, length-append p.chosen.nodes (n ∷ []))));
                })
        ]
  ]

  start : Probed
  start = record { chosen = record { nodes = pool; seen = map node_id pool }; failed = [] }

  ended : Extends (fold (probe_result target) start results)
  unfolding start
  ended =
      (fold_inv (λ p. Covered p × Extends p) (λ n. Memᴰ n results) (probe_result target)
        (λ p n m h. (probe-Covered p n h.0, probe-Extends p n m h.0 h.1)) start results
        (All-Memᴰ results)
        (
          λ x. refl,
          record {
            extra = [];
            joined = sym (append_nil pool);
            working = tt;
            fresh = tt;
            different = tt;
            fits = inl refl;
          },
        )).1

  -- A node that works is taken, unless there is no room.
  abbrev TakenOrFull : Node → List Node → Type 0
  TakenOrFull n ns = (is_in (node_id n) (ids ns) ≡ true) ⊎ (target ≤ length ns)

  abbrev IsWorking : Node → Type 0
  IsWorking n = (is_available n ≡ true) × (is_empty (node_id n) ≡ false)

  probe_made :
      (p : Probed) (n : Node)
      → Covered p
      → IsWorking n
      → TakenOrFull n (probe_result target p n).chosen.nodes
  unfolding probe_result is_repeated
  probe_made p n c (a, e) =
      ground
        (arith, a, e, c (node_id n), is_in-choose n p.chosen (node_id n), text_eq_refl (node_id n))

  probe_holds :
      (p : Probed) (n y : Node)
      → TakenOrFull y p.chosen.nodes
      → TakenOrFull y (probe_result target p n).chosen.nodes
  unfolding probe_result
  probe_holds p n y h =
      ground (arith, h, is_in-choose n p.chosen (node_id y), length-choose n p.chosen)

  all_probed :
      All
        (λ n. IsWorking n → TakenOrFull n (fold (probe_result target) start results).chosen.nodes)
        results
  unfolding start
  all_probed =
      fold_all Covered (λ n p. IsWorking n → TakenOrFull n p.chosen.nodes) (probe_result target)
        probe-Covered (λ p n c w. probe_made p n c w) (λ p n y c h w. probe_holds p n y (h w)) start
        results (λ x. refl)

  cut_still : (n : Node) (ns : List Node) → TakenOrFull n ns → TakenOrFull n (take target ns)
  cut_still n ns h = elim (Bool-cases (leb target (length ns))) [
    | inl e ↦ inr (omega (arith, length-take_full target ns (ground (arith, e))))
    | inr e ↦ rw (take_all target ns (ground (arith, e))) h
  ]

  step-failed :
      (p : Probed) (n : Node)
      → (probe_result target p n).failed ≡ (if is_available n then p.failed else p.failed ++ n ∷ [])
  unfolding probe_result
  step-failed p n = ground arith

  failures :
      (p : Probed) (probed : List Node)
      → (fold (probe_result target) p probed).failed
        ≡ p.failed ++ keep (λ n. not (is_available n)) probed
  unfolding fold
  failures p [] = sym (append_nil p.failed)
  failures p (n ∷ ns) =
      let rest = keep (λ m. not (is_available m)) ns in
      failures (probe_result target p n) ns
      ∙ (ap (λ l. l ++ rest) (step-failed p n) ∙ elim (Bool-cases (is_available n)) [
        | inl a ↦ rw a refl
        | inr a ↦ rw a (append_assoc p.failed (n ∷ []) rest)
      ])

  cut :
      (extra : List Node)
      → (extra ≡ []) ⊎ (length (pool ++ extra) ≤ target)
      → take target (pool ++ extra) ≡ take target pool ++ extra
  cut extra (inl e) = rw (e, append_nil pool) (sym (append_nil (take target pool)))
  cut extra (inr e) =
      take_all target (pool ++ extra) e
      ∙ ap (λ l. l ++ extra)
          (sym (take_all target pool (omega (arith, e, length-append pool extra))))

-- The pool is cut to the target size and followed by nodes that were probed: each is available, named, and
-- new to the pool, and no two have one identifier. There are no more than the target size in all, and
-- unless that is reached every probed node that is available and named is there by its identifier. The
-- failed nodes are the probed ones that are not available.
pub merge_probe_results_lem :
    (pool results : List Node) (target_size : ℕ)
    → let (good, failed) = merge_probe_results pool results target_size in
      (extra : List Node) × (good ≡ take target_size pool ++ extra)
      × All (λ n. Memᴰ n results × (is_available n ≡ true)) extra
      × All (λ n. (is_empty (node_id n) ≡ false) × (is_in (node_id n) (ids pool) ≡ false)) extra
      × IsDistinct (ids extra)
      × (length good ≤ target_size)
      × All
          (λ n.
            (is_available n ≡ true) × (is_empty (node_id n) ≡ false)
            → (is_in (node_id n) (ids good) ≡ true) ⊎ (target_size ≤ length good))
          results
      × (failed ≡ keep (λ n. not (is_available n)) results)
unfolding merge_probe_results start
merge_probe_results_lem pool results target_size =
    let e = ended pool results target_size in
    let nodes =
      (fold (probe_result target_size) (start pool results target_size) results).chosen.nodes in
    (
      e.extra,
      ap (take target_size) e.joined ∙ cut pool results target_size e.extra e.fits,
      e.working,
      e.fresh,
      e.different,
      length-take target_size nodes,
      All-imply _ _ results (λ n h w. cut_still pool results target_size n nodes (h w))
          (all_probed pool results target_size),
      failures pool results target_size (start pool results target_size) results,
    )
