-- ===== src/Realtime/Checkpoint/Keeps.antt =====
-- What is kept of the snapshots: `SaveSnapshot` and `GetLatestCheckpoint` of common/cpp/realtime/checkpoint.cpp.
use gmaker.Common.{
  ℕ, zero, suc, ◌+◌, ◌-◌, ◌≤◌, ◌<◌, ◌≡◌, refl, sym, ap, ◌∙◌, inl, inr, some, List, [], ◌∷◌, ◌++◌,
  append-nil, append_assoc, arith, ltb, le→ltb, Bool-cases, length, get_elem?, drop, length-append,
  length-drop, get_elem?-append, get_elem?-drop, drop_nil, drop-drop,
}
use gmaker.Realtime.Checkpoint.{
  BattleCheckpoint, CheckpointManager, new_manager, trim, save_snapshot, get_latest_checkpoint,
}

module _ {F : Type 0} where
  -- The last `most` elements.
  pub last_of : ℕ → List (BattleCheckpoint F) → List (BattleCheckpoint F)
  last_of most cs = drop (length cs - most) cs

  trim_lem : (most : ℕ) (cs : List (BattleCheckpoint F)) → trim most cs ≡ last_of most cs
  unfolding trim last_of
  trim_lem most [] = unfold last_of in sym (drop_nil _)
  trim_lem most (c ∷ cs) = elim (Bool-cases (ltb most (length (c ∷ cs)))) [
    | inl more ↦
        let n : suc (length cs) - most ≡ suc (length cs - most) = ground arith in
        rw (more, n) (trim_lem most cs)
    | inr fits ↦ let n : suc (length cs) - most ≡ 0 = ground arith in rw (fits, n) refl
  ]

  drop_within :
      (k : ℕ) (xs ys : List (BattleCheckpoint F))
      → k ≤ length xs
      → drop k xs ++ ys ≡ drop k (xs ++ ys)
  drop_within zero xs ys h = refl
  drop_within (suc k) [] ys h = absurd (omega arith)
  drop_within (suc k) (x ∷ xs) ys h = drop_within k xs ys (omega arith)

  -- The last ones of the last ones and more.
  last_of-append :
      (most : ℕ) (xs ys : List (BattleCheckpoint F))
      → last_of most (last_of most xs ++ ys) ≡ last_of most (xs ++ ys)
  unfolding last_of
  last_of-append most xs ys =
      let k = length xs - most in
      let a = drop_within k xs ys (omega arith) in
      let n : k + (length (drop k (xs ++ ys)) - most) ≡ length (xs ++ ys) - most =
        omega (arith, length-drop k (xs ++ ys), length-append xs ys) in
      rw a
        (drop-drop (length (drop k (xs ++ ys)) - most) k (xs ++ ys) ∙ ap (λ j. drop j (xs ++ ys)) n)

  -- `SaveSnapshot` for one snapshot after the other.
  unfoldable pub save_all : CheckpointManager F → List (BattleCheckpoint F) → CheckpointManager F
  save_all m [] = m
  save_all m (cp ∷ cps) = save_all (save_snapshot m cp) cps

  save_all_from :
      (m : CheckpointManager F) (old cps : List (BattleCheckpoint F))
      → m.checkpoints ≡ last_of m.max_checkpoints old
      → (save_all m cps).checkpoints ≡ last_of m.max_checkpoints (old ++ cps)
  unfolding save_all save_snapshot
  save_all_from m old [] h = rw append-nil h
  save_all_from m old (cp ∷ cps) h =
      save_all_from (save_snapshot m cp) (old ++ (cp ∷ [])) cps (
        trim_lem m.max_checkpoints (m.checkpoints ++ (cp ∷ []))
        ∙ ap (λ l. last_of m.max_checkpoints (l ++ (cp ∷ []))) h
        ∙ last_of-append m.max_checkpoints old (cp ∷ []))
      ∙ ap (last_of m.max_checkpoints) (append_assoc old (cp ∷ []) cps)

  last_of_last :
      (most : ℕ) (cps : List (BattleCheckpoint F)) (cp : BattleCheckpoint F)
      → 0 < most
      → get_elem? (last_of most (cps ++ (cp ∷ []))) (length (last_of most (cps ++ (cp ∷ []))) - 1)
        ≡ some cp
  unfolding last_of
  last_of_last most cps cp h =
      let l = cps ++ (cp ∷ []) in
      let n = length l - most in
      let i : n + (length (drop n l) - 1) ≡ length cps =
        omega (arith, length-drop n l, length-append cps (cp ∷ [])) in
      get_elem?-drop n l (length (drop n l) - 1)
      ∙ ap (get_elem? l) i
      ∙ get_elem?-append cps (cp ∷ []) (length cps)
      ∙ rw (le→ltb (length cps) (length cps) (omega arith), last_index) refl
    where
      last_index : length cps - length cps ≡ 0
      last_index = omega arith

  -- A new manager with room for one snapshot at least that has been given some, one after the
  -- other, keeps the last of them, as many as it has room for, in their order, and the latest one
  -- is the last.
  pub save_all_lem :
      (interval most : ℕ) (cps : List (BattleCheckpoint F)) (cp : BattleCheckpoint F)
      → 0 < most
      → ((save_all (new_manager interval most) (cps ++ (cp ∷ []))).checkpoints
          ≡ last_of most (cps ++ (cp ∷ [])))
        × (get_latest_checkpoint (save_all (new_manager interval most) (cps ++ (cp ∷ [])))
            ≡ some cp)
  unfolding get_latest_checkpoint new_manager
  save_all_lem interval most cps cp h =
      let kept =
        save_all_from (new_manager interval most) [] (cps ++ (cp ∷ []))
          (unfold last_of in sym (drop_nil _)) in
      (kept, ap (λ l. get_elem? l (length l - 1)) kept ∙ last_of_last most cps cp h)
