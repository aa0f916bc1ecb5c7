-- ===== src/Net/Ring/Read.antt =====
-- Reading: `ReadAt`, `DataAt` and `Consume` of common/cpp/net/ring_buffer.cpp.
use gmaker.Common.{
  ℕ, zero, suc, ◌+◌, ◌-◌, ◌%◌, ◌^◌, ◌≤◌, ◌<◌, min, ◌≡◌, sym, ap, ◌∙◌, true, some, List, ◌++◌,
  append-nil, arith, lt→ltb, le→ltb, u64, length, take, drop, blit, length-take, length-drop,
  take_long, take_clamped, drop_clamped, blit-nil, blit-blit,
}
use gmaker.Net.Ring.{
  RingBuffer, capacity, sub_size, copy_out, is_contiguous, data_at, read_at, consume,
}
use gmaker.Net.Ring.Cyclic.{
  cyclic, wrapped, mod-wrapped, wrapped-wrapped, length-cyclic, take-drop-cyclic, contents, IsValid,
}

copy_out_done :
    (f : ℕ) (buf : List ℕ) (start copied len : ℕ) (out : List ℕ)
    → len ≤ copied
    → copy_out (suc f) buf start copied len out ≡ some out
unfolding copy_out
copy_out_done f buf start copied len out h = rw (le→ltb copied len h)

copy_out_step :
    (f : ℕ) (buf : List ℕ) (start copied len chunk : ℕ) (out : List ℕ)
    → copied < len
    → chunk ≡ min (len - copied) (sub_size (length buf) start)
    → copy_out (suc f) buf start copied len out
      ≡ copy_out f buf 0 (copied + chunk) len (blit out copied (take chunk (drop start buf)))
unfolding copy_out
copy_out_step f buf start copied len chunk out h e = rw (lt→ltb copied len h, e)

-- From the front of the vector one round is enough.
copy_out_front :
    (f : ℕ) (buf : List ℕ) (copied n len : ℕ) (out : List ℕ)
    → copied + n ≡ len
    → n ≤ length buf
    → length buf ≤ 2 ^ 63
    → n ≤ f
    → copy_out (suc f) buf 0 copied len out ≡ some (blit out copied (take n buf))
copy_out_front f buf copied zero len out e l small fuel =
    copy_out_done f buf 0 copied len out (omega arith) ∙ ap some (sym (blit-nil out copied))
copy_out_front zero buf copied (suc n) len out e l small fuel = absurd (omega arith)
copy_out_front (suc f) buf copied (suc n) len out e l small fuel =
    copy_out_step (suc f) buf 0 copied len (suc n) out (omega arith) (omega arith)
    ∙ copy_out_done f buf 0 (copied + suc n) len (blit out copied (take (suc n) buf)) (omega arith)

-- The loop copies the cyclic window, if the fuel is at least its length.
pub copy_out_lem :
    (f : ℕ) (buf : List ℕ) (start n : ℕ) (out : List ℕ)
    → start < length buf
    → length buf ≤ 2 ^ 63
    → n ≤ length buf
    → n ≤ f
    → copy_out (suc f) buf start 0 n out ≡ some (blit out 0 (cyclic buf start n))
unfolding cyclic
copy_out_lem f buf start zero out h small l fuel =
    let e : 0 - (length buf - start) ≡ 0 = omega arith in
    copy_out_done f buf start 0 0 out (omega arith)
    ∙ ap some (sym (ap (λ k. blit out 0 (take k buf)) e ∙ blit-nil out 0))
copy_out_lem zero buf start (suc n) out h small l fuel = absurd (omega arith)
copy_out_lem (suc f) buf start (suc n) out h small l fuel =
    let first = drop start buf in
    let c = min (suc n) (length first) in
    let len = length-drop start buf in
    let m : suc n - c ≡ suc n - (length buf - start) = omega arith in
    let c_len : c ≡ 0 + length (take (suc n) first) = omega (arith, length-take (suc n) first) in
    copy_out_step (suc f) buf start 0 (suc n) c out (omega arith) (omega arith)
    ∙ copy_out_front f buf (0 + c) (suc n - c) (suc n) (blit out 0 (take c first)) (omega arith)
        (omega arith) small (omega arith)
    ∙ ap some (
        rw (take_clamped (suc n) first, m)
          (ap
              (λ k.
                blit (blit out 0 (take (suc n) first)) k (take (suc n - (length buf - start)) buf))
              (omega arith)
            ∙ blit-blit out 0 (take (suc n) first) (take (suc n - (length buf - start)) buf)))

position :
    (r : RingBuffer) (o : ℕ)
    → IsValid r
    → o ≤ r.stored
    → u64 (r.rpos + o) % capacity r ≡ wrapped (capacity r) (r.rpos + o)
position r o v h =
    let e : u64 (r.rpos + o) ≡ r.rpos + o = omega arith in
    rw e (mod-wrapped (capacity r) (r.rpos + o) (omega arith) (omega arith))

-- `ReadAt` of a stretch of the stored bytes ends, and copies that stretch to the front of `out`.
pub read_at_lem :
    (r : RingBuffer) (offset : ℕ) (out : List ℕ) (len : ℕ)
    → IsValid r
    → offset + len ≤ r.stored
    → read_at r offset out len ≡ some (blit out 0 (take len (drop offset (contents r))))
unfolding read_at
read_at_lem r offset out len v h =
    let start = wrapped (capacity r) (r.rpos + offset) in
    let inside : start < capacity r = ground arith in
    ap (λ k. copy_out (suc len) r.buf k 0 len out) (position r offset v (omega arith))
    ∙ copy_out_lem len r.buf start len out inside (omega arith) (omega arith) (omega arith)
    ∙ ap (λ x. some (blit out 0 x))
        (take-drop-cyclic r.buf r.rpos r.stored offset len v.rpos_in v.stored_in h)

pub cyclic_straight :
    (buf : List ℕ) (start n : ℕ)
    → start + n ≤ length buf
    → cyclic buf start n ≡ take n (drop start buf)
unfolding cyclic
cyclic_straight buf start n h =
    let e : n - (length buf - start) ≡ 0 = omega arith in
    ap (λ k. take n (drop start buf) ++ take k buf) e ∙ append-nil _

contiguous_facts :
    (r : RingBuffer) (offset len : ℕ)
    → offset + len < 2 ^ 64
    → IsValid r
    → is_contiguous r offset len ≡ true
    → (offset + len ≤ r.stored) × (u64 (u64 (r.rpos + offset) % capacity r + len) ≤ capacity r)
unfolding is_contiguous
contiguous_facts r offset len small v h = ground arith

-- Where `IsContiguous` says so, the `len` bytes at `DataAt` lie within the vector and are the stored
-- bytes from `offset` on.
pub is_contiguous_lem :
    (r : RingBuffer) (offset len : ℕ)
    → IsValid r
    → offset + len < 2 ^ 64
    → is_contiguous r offset len ≡ true
    → (data_at r offset + len ≤ capacity r)
      × (take len (drop (data_at r offset) r.buf) ≡ take len (drop offset (contents r)))
unfolding data_at
is_contiguous_lem r offset len v small h =
    let (fits, ends) = contiguous_facts r offset len small v h in
    let at = position r offset v (omega arith) in
    let start = wrapped (capacity r) (r.rpos + offset) in
    let within : start < capacity r = ground arith in
    let straight : start + len ≤ capacity r = omega arith in
    (
      omega arith,
      ap (λ k. take len (drop k r.buf)) at
          ∙ sym (cyclic_straight r.buf start len straight)
          ∙ take-drop-cyclic r.buf r.rpos r.stored offset len v.rpos_in v.stored_in fits,
    )

-- `Consume` drops that many of the oldest bytes, or all of them, and keeps the ring valid.
pub consume_lem :
    (r : RingBuffer) (len : ℕ)
    → IsValid r
    → IsValid (consume r len) × (contents (consume r len) ≡ drop len (contents r))
unfolding consume
consume_lem r len v =
    let m = min len r.stored in
    let at = position r m v (omega arith) in
    let within : wrapped (capacity r) (r.rpos + m) < capacity r = ground arith in
    let split : r.rpos + r.stored ≡ r.rpos + (m + (r.stored - m)) = omega arith in
    let size = length-cyclic r.buf r.rpos r.stored v.rpos_in v.stored_in in
    (
      record {
        room = v.room;
        small = v.small;
        rpos_in = omega arith;
        stored_in = omega arith;
        wpos_at =
            v.wpos_at
            ∙ ap (wrapped (capacity r)) split
            ∙ sym (wrapped-wrapped (capacity r) r.rpos m (r.stored - m) v.rpos_in (omega arith))
            ∙ ap (λ k. wrapped (capacity r) (k + (r.stored - m))) (sym at);
      },
      ap (λ k. cyclic r.buf k (r.stored - m)) at
          ∙ take-drop-cyclic r.buf r.rpos r.stored m (r.stored - m) v.rpos_in v.stored_in
              (omega arith)
          ∙ take_long (r.stored - m) (drop m (contents r))
              (omega (arith, length-drop m (contents r)))
          ∙ ap (λ k. drop (min len k) (contents r)) (sym size)
          ∙ drop_clamped len (contents r),
    )
