-- ===== src/Net/TcpReader/Frames.antt =====
-- The reader's specification, on the stream of bytes with no ring: the packets that a list of bytes
-- starts with.
use gmaker.Common.{
  ℕ, zero, suc, ◌≤◌, ◌<◌, ◌≡◌, refl, sym, ap, ap₂, ◌∙◌, true, ◌||◌, not, Option, none, some, List,
  arith, ltb, if◌then◌else◌, le→ltb, length, drop, length-drop,
}
use gmaker.Net.Bytes.{read_u32_be}
use gmaker.Net.Packet.{header_size, max_packet_len}
use gmaker.Net.TcpReader.{Delivery, Env, has_magic, packet_at, open_packet}

-- More bytes are needed, the stream is refused, or a packet was handed over and this is what follows.
pub data Frame (W : Type 0) : Type 0 where
  more : Frame W
  bad : Frame W
  next : List ℕ → W → Frame W

-- The end of a list of bytes: what is left of it, or the refusal.
pub data Stream (W : Type 0) : Type 0 where
  pending : List ℕ → W → Stream W
  refused : W → Stream W

module _ {W : Type 0} (env : Env W) where
  abbrev pub after_opening : Option Delivery → List ℕ → W → Frame W
  after_opening none rest w = bad
  after_opening (some pkt) rest w = next rest (env.on_data w pkt)

  unfoldable pub frame : List ℕ → W → Frame W
  frame bs w =
      let len = read_u32_be bs 0 in
      if ltb (length bs) 4
      then more
      else if ltb len header_size || ltb max_packet_len len
      then bad
      else if ltb (length bs) len
      then more
      else if not (has_magic bs)
      then bad
      else after_opening (open_packet env.gcm (env.session_key w) (packet_at bs len)) (drop len bs)
          w

  unfoldable pub stream : ℕ → List ℕ → W → Option (Stream W)
  stream zero bs w = none
  stream (suc fuel) bs w = elim (frame bs w) [
    | more ↦ some (pending bs w)
    | bad ↦ some (refused w)
    | next rest w' ↦ stream fuel rest w'
  ]

  -- The whole of a list of bytes. A packet has at least 34, so the fuel is enough.
  unfoldable pub parse : List ℕ → W → Option (Stream W)
  parse bs w = stream (suc (length bs)) bs w

-- A packet starts with its header, and is followed by the rest.
pub record Cut {W : Type 0} (env : Env W) (bs : List ℕ) (w : W) (rest : List ℕ) (w' : W)
    : Type 0 where
  pub len : ℕ
  pub long : 34 ≤ len
  pub short : len ≤ 16777216
  pub there : len ≤ length bs
  pub field : read_u32_be bs 0 ≡ len
  pub magic : has_magic bs ≡ true
  pub pkt : Delivery
  pub opened : open_packet env.gcm (env.session_key w) (packet_at bs len) ≡ some pkt
  pub follows : rest ≡ drop len bs
  pub handled : w' ≡ env.on_data w pkt

module _ {W : Type 0} (env : Env W) where
  opening :
      (o : Option Delivery) (rest0 : List ℕ) (w : W) (rest : List ℕ) (w' : W)
      → after_opening env o rest0 w ≡ next rest w'
      → (pkt : Delivery) × (o ≡ some pkt) × (rest ≡ rest0) × (w' ≡ env.on_data w pkt)
  opening none rest0 w rest w' e = cc e
  opening (some pkt) rest0 w rest w' e = (pkt, refl, cc e, cc e)

  guards :
      (bs : List ℕ) (w : W) (rest : List ℕ) (w' : W)
      → frame env bs w ≡ next rest w'
      → (34 ≤ read_u32_be bs 0)
        × (read_u32_be bs 0 ≤ 16777216)
        × (4 ≤ length bs)
        × (read_u32_be bs 0 ≤ length bs)
        × (has_magic bs ≡ true)
        × (after_opening env
              (open_packet env.gcm (env.session_key w) (packet_at bs (read_u32_be bs 0)))
              (drop (read_u32_be bs 0) bs)
              w
            ≡ next rest w')
  unfolding frame
  guards bs w rest w' e = ground arith

  pub frame-Cut :
      {bs : List ℕ} {w : W} {rest : List ℕ} {w' : W}
      → frame env bs w ≡ next rest w'
      → Cut env bs w rest w'
  frame-Cut {bs} {w} {rest} {w'} e =
      let (long, short, four, there, magic, o) = guards bs w rest w' e in
      let (pkt, opened, follows, handled) = opening _ _ w rest w' o in
      record {
        len = read_u32_be bs 0;
        long = long;
        short = short;
        there = there;
        field = refl;
        magic = magic;
        pkt = pkt;
        opened = opened;
        follows = follows;
        handled = handled;
      }

  pub frame_run :
      (bs : List ℕ) (w : W) (len : ℕ) (pkt : Delivery)
      → 34 ≤ len
      → len ≤ 16777216
      → len ≤ length bs
      → read_u32_be bs 0 ≡ len
      → has_magic bs ≡ true
      → open_packet env.gcm (env.session_key w) (packet_at bs len) ≡ some pkt
      → frame env bs w ≡ next (drop len bs) (env.on_data w pkt)
  unfolding frame
  frame_run bs w len pkt long short there field magic opened =
      rw
        (
          field,
          le→ltb (length bs) 4 (omega arith),
          le→ltb len 34 long,
          le→ltb 16777216 len short,
          le→ltb (length bs) len there,
          magic,
          opened,
        )
        refl

  pub Cut-frame :
      {bs : List ℕ} {w : W} {rest : List ℕ} {w' : W}
      → Cut env bs w rest w'
      → frame env bs w ≡ next rest w'
  Cut-frame {bs} {w} c =
      frame_run bs w c.len c.pkt c.long c.short c.there c.field c.magic c.opened
      ∙ ap₂ next (sym c.follows) (sym c.handled)

  pub Cut-shorter :
      {bs : List ℕ} {w : W} {rest : List ℕ} {w' : W}
      → Cut env bs w rest w'
      → length rest < length bs
  Cut-shorter {bs} c = omega (arith, ap length c.follows, length-drop c.len bs, c.long, c.there)
