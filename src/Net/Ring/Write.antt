-- ===== src/Net/Ring/Write.antt =====
-- Writing: `Append` of common/cpp/net/ring_buffer.cpp.
use gmaker.Common.{
  ℕ, suc, ◌+◌, ◌^◌, ◌≤◌, ◌<◌, ◌≡◌, sym, ap, ap₂, ◌∙◌, some, List, ◌++◌, arith, u64, length,
}
use native.Mathlib.Nat.{le_refl}
use gmaker.Net.Ring.{RingBuffer, capacity, copy_in, ensure_space, store, append}
use gmaker.Net.Ring.Cyclic.{cyclic, wrapped, wrapped-wrapped, contents, IsValid}
use gmaker.Net.Ring.Grow.{ensure_space_lem}
use gmaker.Net.Ring.Put.{put, copy_in_lem, length-put, cyclic-put}

stored_ring : RingBuffer → List ℕ → RingBuffer
stored_ring r bs = record {
  buf = put r.buf r.wpos bs;
  rpos = r.rpos;
  wpos = wrapped (capacity r) (r.wpos + length bs);
  stored = u64 (r.stored + length bs);
}

store_run :
    (r : RingBuffer) (bs : List ℕ)
    → copy_in (suc (length bs)) r.buf r.wpos bs (length bs)
      ≡ some (put r.buf r.wpos bs, wrapped (capacity r) (r.wpos + length bs))
    → store r bs ≡ some (stored_ring r bs)
unfolding store stored_ring
store_run r bs e = rw (e, store)

-- The copy into a ring with room.
store_lem :
    (r : RingBuffer) (bs : List ℕ)
    → IsValid r
    → r.stored + length bs ≤ capacity r
    → (store r bs ≡ some (stored_ring r bs))
      × IsValid (stored_ring r bs)
      × (contents (stored_ring r bs) ≡ contents r ++ bs)
unfolding stored_ring
store_lem r bs v fits =
    let w : r.wpos < capacity r = ground (arith, v.wpos_at) in
    let n : u64 (r.stored + length bs) ≡ r.stored + length bs = omega arith in
    let len = length-put r.buf r.wpos bs in
    (
      store_run r bs (copy_in_lem (length bs) r.buf r.wpos bs w (omega arith) v.small (le_refl _)),
      record {
        room = omega arith;
        small = omega arith;
        rpos_in = omega arith;
        stored_in = omega arith;
        wpos_at =
            ap (λ k. wrapped (capacity r) (k + length bs)) v.wpos_at
            ∙ wrapped-wrapped (capacity r) r.rpos r.stored (length bs) v.rpos_in fits
            ∙ ap₂ wrapped (sym len) (ap (λ k. r.rpos + k) (sym n));
      },
      ap₂ (λ p k. cyclic (put r.buf p bs) r.rpos k) v.wpos_at n
          ∙ cyclic-put r.buf r.rpos r.stored bs v.rpos_in fits,
    )

append_run :
    (r r' r'' : RingBuffer) (bs : List ℕ)
    → ensure_space r (length bs) ≡ some r'
    → store r' bs ≡ some r''
    → append r bs ≡ some r''
unfolding append
append_run r r' r'' bs e f = rw (e, append) f

-- `Append` to a valid ring ends, for up to 2 ^ 62 bytes in all: the loops that double the capacity
-- and copy do not run out of fuel. The ring stays valid, and holds what it held, followed by `bs`.
pub append_lem :
    (r : RingBuffer) (bs : List ℕ)
    → IsValid r
    → r.stored + length bs ≤ 2 ^ 62
    → (r' : RingBuffer) × (append r bs ≡ some r') × IsValid r' × (contents r' ≡ contents r ++ bs)
append_lem r bs v h =
    let (r', grown, v', same, count, room) = ensure_space_lem r (length bs) v h in
    let (run, v'', bytes) = store_lem r' bs v' (omega arith) in
    (
      stored_ring r' bs,
      append_run r r' (stored_ring r' bs) bs grown run,
      v'',
      bytes ∙ ap (λ x. x ++ bs) same,
    )
