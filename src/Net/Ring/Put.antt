-- ===== src/Net/Ring/Put.antt =====
-- The copying loop of `Append`, common/cpp/net/ring_buffer.cpp, and what it leaves in the vector.
use gmaker.Common.{
  ℕ, zero, suc, ◌+◌, ◌-◌, ◌%◌, ◌^◌, ◌≤◌, ◌<◌, min, ◌≡◌, refl, sym, ap, ap₂, ◌∙◌, inl, inr, some,
  List, [], ◌∷◌, ◌++◌, arith, ltb, leb, if◌then◌else◌, ltb→lt, leb→le, leb→lt, lt→ltb, le→ltb,
  tests, Bool-cases, u64, length, get_elem?, take, drop, blit, length-append, length-take,
  length-drop, length-blit, get_elem?-append, get_elem?-drop, get_elem?-take, get_elem?_out,
  get_elem?-blit, get_elem?_ext, take_all, take_nil, drop_nil, take_long, drop_long, blit-nil,
}
use native.Mathlib.Nat.{mod-eq_of_lt, mod_self}
use gmaker.Net.Ring.{sub_size, copy_in}
use gmaker.Net.Ring.Cyclic.{cyclic, wrapped, mod-wrapped, get_elem?-cyclic, length-cyclic}

-- What the loop leaves: the bytes from `pos` on, and what did not fit at the front.
pub put : List ℕ → ℕ → List ℕ → List ℕ
put buf pos bs = blit (blit buf pos (take (length buf - pos) bs)) 0 (drop (length buf - pos) bs)

copy_in_step :
    (f : ℕ) (buf : List ℕ) (pos : ℕ) (bs : List ℕ) (remaining chunk : ℕ)
    → 0 < remaining
    → chunk ≡ min remaining (sub_size (length buf) pos)
    → copy_in (suc f) buf pos bs remaining
      ≡ copy_in f
          (blit buf pos (take chunk (drop (length bs - remaining) bs)))
          (u64 (pos + chunk) % length buf)
          bs
          (remaining - chunk)
unfolding copy_in
copy_in_step f buf pos bs remaining chunk h e = rw (lt→ltb 0 remaining h, e)

copy_in_done :
    (f : ℕ) (buf : List ℕ) (pos : ℕ) (bs : List ℕ) (remaining : ℕ)
    → remaining ≡ 0
    → copy_in (suc f) buf pos bs remaining ≡ some (buf, pos)
unfolding copy_in
copy_in_done f buf pos bs remaining e = rw (le→ltb 0 remaining (omega arith))

-- From the front one round is enough.
copy_in_front :
    (f : ℕ) (buf bs : List ℕ) (n : ℕ)
    → n < length buf
    → length buf ≤ 2 ^ 63
    → n ≤ f
    → copy_in (suc f) buf 0 bs n ≡ some (blit buf 0 (take n (drop (length bs - n) bs)), n)
copy_in_front f buf bs zero l small fuel =
    copy_in_done f buf 0 bs 0 refl ∙ ap (λ x. some (x, 0)) (sym (blit-nil {A = ℕ} buf 0))
copy_in_front zero buf bs (suc n) l small fuel = absurd (omega arith)
copy_in_front (suc f) buf bs (suc n) l small fuel =
    let e : u64 (0 + suc n) % length buf ≡ suc n =
      ap (λ k. k % length buf) (omega arith) ∙ mod-eq_of_lt l in
    let z : suc n - suc n ≡ 0 = omega arith in
    copy_in_step (suc f) buf 0 bs (suc n) (suc n) (omega arith) (omega arith)
    ∙ copy_in_done f (blit buf 0 (take (suc n) (drop (length bs - suc n) bs)))
        (u64 (0 + suc n) % length buf) bs (suc n - suc n) z
    ∙ ap (λ k. some (blit buf 0 (take (suc n) (drop (length bs - suc n) bs)), k)) e

-- Where all of it fits before the end.
copy_in_fits :
    (f : ℕ) (buf : List ℕ) (pos : ℕ) (bs : List ℕ)
    → pos < length buf
    → length bs ≤ length buf - pos
    → length buf ≤ 2 ^ 63
    → 0 < length bs
    → copy_in (suc (suc f)) buf pos bs (length bs)
      ≡ some (put buf pos bs, wrapped (length buf) (pos + length bs))
unfolding put
copy_in_fits f buf pos bs h l small some_bytes =
    let n = length bs in
    let z : n - n ≡ 0 = omega arith in
    let b1 : blit buf pos (take n (drop (n - n) bs)) ≡ put buf pos bs =
      ap (λ k. blit buf pos (take n (drop k bs))) z
      ∙ ap (blit buf pos) (take_all bs ∙ sym (take_long (length buf - pos) bs l))
      ∙ sym (
          ap (blit (blit buf pos (take (length buf - pos) bs)) 0)
            (drop_long (length buf - pos) bs l)
          ∙ blit-nil (blit buf pos (take (length buf - pos) bs)) 0) in
    let e : u64 (pos + n) ≡ pos + n = omega arith in
    let w =
      ap (λ k. k % length buf) e ∙ mod-wrapped (length buf) (pos + n) (omega arith) (omega arith) in
    copy_in_step (suc f) buf pos bs n n some_bytes (omega arith)
    ∙ copy_in_done f (blit buf pos (take n (drop (n - n) bs))) (u64 (pos + n) % length buf) bs
        (n - n) z
    ∙ ap₂ (λ x k. some (x, k)) b1 w

-- Where it goes round.
copy_in_round :
    (f : ℕ) (buf : List ℕ) (pos : ℕ) (bs : List ℕ)
    → pos < length buf
    → length buf - pos < length bs
    → length bs ≤ length buf
    → length buf ≤ 2 ^ 63
    → length bs ≤ suc f
    → copy_in (suc (suc f)) buf pos bs (length bs)
      ≡ some (put buf pos bs, wrapped (length buf) (pos + length bs))
unfolding put
copy_in_round f buf pos bs h over l small fuel =
    let n = length bs in
    let k = length buf - pos in
    let z : n - n ≡ 0 = omega arith in
    let back : n - (n - k) ≡ k = omega arith in
    let b1 = blit buf pos (take k (drop (n - n) bs)) in
    let b1_eq : b1 ≡ blit buf pos (take k bs) = ap (λ j. blit buf pos (take k (drop j bs))) z in
    let len : length b1 ≡ length buf = length-blit buf pos (take k (drop (n - n) bs)) in
    let e : u64 (pos + k) ≡ length buf = omega arith in
    let front : u64 (pos + k) % length buf ≡ 0 =
      ap (λ j. j % length buf) e ∙ mod_self (length buf) in
    let ends : n - k ≡ wrapped (length buf) (pos + n) = ground arith in
    let others : take (n - k) (drop (n - (n - k)) bs) ≡ drop k bs =
      ap (λ j. take (n - k) (drop j bs)) back
      ∙ take_long (n - k) (drop k bs) (omega (arith, length-drop k bs)) in
    copy_in_step (suc f) buf pos bs n k (omega arith) (omega arith)
    ∙ ap (λ j. copy_in (suc f) b1 j bs (n - k)) front
    ∙ copy_in_front f b1 bs (n - k) (omega arith) (omega arith) (omega arith)
    ∙ ap₂ (λ x j. some (x, j)) (ap₂ (λ x y. blit x 0 y) b1_eq others) ends

pub copy_in_lem :
    (f : ℕ) (buf : List ℕ) (pos : ℕ) (bs : List ℕ)
    → pos < length buf
    → length bs ≤ length buf
    → length buf ≤ 2 ^ 63
    → length bs ≤ f
    → copy_in (suc f) buf pos bs (length bs)
      ≡ some (put buf pos bs, wrapped (length buf) (pos + length bs))
unfolding put
copy_in_lem f buf pos [] h l small fuel =
    let k = length buf - pos in
    copy_in_done f buf pos [] 0 refl
    ∙ ap₂ (λ x j. some (x, j))
        (sym (
          ap₂ (λ x y. blit (blit buf pos x) 0 y) (take_nil k) (drop_nil k)
          ∙ blit-nil (blit buf pos []) 0
          ∙ blit-nil buf pos))
        (ground arith)
copy_in_lem zero buf pos (x ∷ xs) h l small fuel = absurd (omega arith)
copy_in_lem (suc f) buf pos (x ∷ xs) h l small fuel =
    elim (Bool-cases (leb (length (x ∷ xs)) (length buf - pos))) [
      | inl fits ↦ copy_in_fits f buf pos (x ∷ xs) h (leb→le _ _ fits) small (omega arith)
      | inr over ↦ copy_in_round f buf pos (x ∷ xs) h (leb→lt _ _ over) l small fuel
    ]

pub length-put : (buf : List ℕ) (pos : ℕ) (bs : List ℕ) → length (put buf pos bs) ≡ length buf
unfolding put
length-put buf pos bs =
    length-blit (blit buf pos (take (length buf - pos) bs)) 0 (drop (length buf - pos) bs)
    ∙ length-blit buf pos (take (length buf - pos) bs)

-- What `put` leaves at each index.
get_elem?-put :
    (buf : List ℕ) (pos : ℕ) (bs : List ℕ) (j : ℕ)
    → pos < length buf
    → length bs ≤ length buf
    → j < length buf
    → get_elem? (put buf pos bs) j ≡ (
        if ltb j (length bs - (length buf - pos))
        then get_elem? bs (length buf - pos + j)
        else if ltb j pos
        then get_elem? buf j
        else if ltb (j - pos) (length bs)
        then get_elem? bs (j - pos)
        else get_elem? buf j)
unfolding put
get_elem?-put buf pos bs j h l m =
    let k = length buf - pos in
    let first = take k bs in
    let second = drop k bs in
    let a = length-take k bs in
    let b = length-drop k bs in
    let c = length-blit buf pos first in
    ground (
      arith,
      get_elem?-blit (blit buf pos first) 0 second j (omega arith),
      get_elem?-blit buf pos first j (omega arith),
      get_elem?-drop k bs (j - 0),
      get_elem?-take k bs (j - pos),
    )

cyclic-put_at :
    (buf : List ℕ) (start n : ℕ) (bs : List ℕ) (i : ℕ)
    → start < length buf
    → n + length bs ≤ length buf
    → wrapped (length buf) (start + n) < length buf
    → length (put buf (wrapped (length buf) (start + n)) bs) ≡ length buf
    → get_elem? (cyclic (put buf (wrapped (length buf) (start + n)) bs) start (n + length bs)) i
      ≡ get_elem? (cyclic buf start n ++ bs) i
cyclic-put_at buf start n bs i h l p len =
    let c = length buf in
    let pos = wrapped c (start + n) in
    let size = length-cyclic buf start n h (omega arith) in
    elim (Bool-cases (ltb i (n + length bs))) [
      | inr beyond ↦
          get_elem?_out (cyclic (put buf pos bs) start (n + length bs)) i (
            omega (
              tests,
              beyond,
              length-cyclic (put buf pos bs) start (n + length bs) (omega arith) (omega arith),
            ))
          ∙ sym (
              get_elem?_out (cyclic buf start n ++ bs) i
                (omega (tests, beyond, length-append (cyclic buf start n) bs)))
      | inl inside ↦
          let i_small = ltb→lt _ _ inside in
          let j : wrapped c (start + i) < c = ground arith in
          get_elem?-cyclic (put buf pos bs) start (n + length bs) i (omega arith) (omega arith)
          ∙ rw inside (
              ap (λ k. get_elem? (put buf pos bs) (wrapped k (start + i))) len
              ∙ get_elem?-put buf pos bs (wrapped c (start + i)) p (omega arith) j
              ∙ sym (
                  get_elem?-append (cyclic buf start n) bs i
                  ∙ ground (arith, get_elem?-cyclic buf start n i)))
    ]

-- The window after the copy is the old window with the new bytes behind it.
pub cyclic-put :
    (buf : List ℕ) (start n : ℕ) (bs : List ℕ)
    → start < length buf
    → n + length bs ≤ length buf
    → cyclic (put buf (wrapped (length buf) (start + n)) bs) start (n + length bs)
      ≡ cyclic buf start n ++ bs
cyclic-put buf start n bs h l =
    let pos = wrapped (length buf) (start + n) in
    let len = length-put buf pos bs in
    let p : pos < length buf = ground arith in
    get_elem?_ext (cyclic (put buf pos bs) start (n + length bs)) (cyclic buf start n ++ bs)
      λ i. cyclic-put_at buf start n bs i h l p len
