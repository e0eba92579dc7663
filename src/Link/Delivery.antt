-- ===== src/Link/Delivery.antt =====
-- Between two connections: what comes out at an end is the start of what went in at the other.
use computer_network.Base.{ℕ, ◌≡◌, refl, sym, ◌∙◌, true, some, List, ◌++◌}
use computer_network.ByteStream
use computer_network.WrappingIntegers.{WrappingInt32}
use computer_network.TcpConnection.{TcpConfig}
use computer_network.Session.Receiving.{next_lem, eof_lem}
use computer_network.Link.{End, Link, Step, at_near, at_far, Reach, here, next}
use computer_network.Link.Half.{Course}
use computer_network.Link.Start.{IsOpen, course, start-EndSound, fresh}
use computer_network.Link.Ends.{EndSound, After, short, Act-After}
use computer_network.Link.Growth.{Grows, Grows-Half}

record Sound (l : Link) : Type 0 where
  near : Course
  far : Course
  near_sound : EndSound near far l.near
  far_sound : EndSound far near l.far

-- The other end, once this one was given more.
other :
    (mine mine' theirs : Course) (e : End)
    → Grows mine mine'
    → EndSound theirs mine e
    → EndSound theirs mine' e
other mine mine' theirs e g v = record {
  given_bytes = v.given_bytes;
  small = v.small;
  half = Grows-Half theirs mine mine' e.delivered e.connection g v.half;
  underway = v.underway;
}

Step-Sound : (l m : Link) → Step l m → Sound l → Sound m
unfolding After
Step-Sound l _ (at_near {e} act) v =
    let n = v.near_sound in
    let f = v.far_sound in
    let (near', grows, sound) =
      Act-After v.near v.far l.near n l.far.network e f.underway (short v.far v.near l.far f)
        f.small act in
    record {
      near = near';
      far = v.far;
      near_sound = sound;
      far_sound = other v.near near' v.far l.far grows f;
    }
Step-Sound l _ (at_far {e} act) v =
    let n = v.near_sound in
    let f = v.far_sound in
    let (far', grows, sound) =
      Act-After v.far v.near l.far f l.near.network e n.underway (short v.near v.far l.near n)
        n.small act in
    record {
      near = v.near;
      far = far';
      near_sound = other v.far far' v.near l.near grows n;
      far_sound = sound;
    }

Reach-Sound : (l m : Link) → Reach l m → Sound l → Sound m
Reach-Sound l _ here v = v
Reach-Sound l _ (next {m} {n} r step) v = Step-Sound m n step (Reach-Sound l m r v)

fresh-Sound :
    (cfg cfg' : TcpConfig) (random random' : WrappingInt32)
    → IsOpen cfg random
    → IsOpen cfg' random'
    → Sound (fresh cfg random cfg' random')
unfolding course
fresh-Sound cfg cfg' random random' o o' = record {
  near = course cfg random;
  far = course cfg' random';
  near_sound = start-EndSound cfg random (course cfg' random') refl o;
  far_sound = start-EndSound cfg' random' (course cfg random) refl o';
}

-- The next read returns, and what was read and what it returns are the start of what was given.
pub Delivers : ℕ → End → End → Type 0
Delivers len from to =
    (bytes rest : List ℕ) × ((ByteStream.read len to.connection.receiver.reassembler.output).0
      ≡ some bytes)
    × (from.accepted ≡ to.delivered ++ (bytes ++ rest))

-- An end that is read, and the end that is given the bytes.
pub data Side : Type 0 where
  near_side far_side : Side

abbrev pub reader : Side → Link → End
reader near_side l = l.near
reader far_side l = l.far

abbrev pub writer : Side → Link → End
writer near_side l = l.far
writer far_side l = l.near

-- The two directions and what is known of their ends.
record Between (from to : End) : Type 0 where
  mine : Course
  theirs : Course
  from_sound : EndSound theirs mine from
  to_sound : EndSound mine theirs to

Sound-Between : (side : Side) (l : Link) → Sound l → Between (writer side l) (reader side l)
Sound-Between near_side l v = record {
  mine = v.near;
  theirs = v.far;
  from_sound = v.far_sound;
  to_sound = v.near_sound;
}
Sound-Between far_side l v = record {
  mine = v.far;
  theirs = v.near;
  from_sound = v.near_sound;
  to_sound = v.far_sound;
}

module _ (cfg cfg' : TcpConfig) (random random' : WrappingInt32) (l : Link) (side : Side) where
  Reach-Between :
      IsOpen cfg random
      → IsOpen cfg' random'
      → Reach (fresh cfg random cfg' random') l
      → Between (writer side l) (reader side l)
  Reach-Between o o' path =
      Sound-Between side l (Reach-Sound _ l path (fresh-Sound cfg cfg' random random' o o'))

  -- Whatever two fresh connections do, in whatever order, with their segments lost, doubled and
  -- reordered in both directions: the next read at either end returns without throwing, and what was
  -- read there and these bytes are the start of what the calls of `write` took at the other end. The
  -- capacities are below 2^64 and 2^63, the initial sequence numbers are 32-bit numbers, and an end is
  -- given fewer than 2^31 bytes, and none after the end of its input.
  pub read-Link :
      (len : ℕ)
      → IsOpen cfg random
      → IsOpen cfg' random'
      → Reach (fresh cfg random cfg' random') l
      → Delivers len (writer side l) (reader side l)
  unfolding Delivers
  read-Link len o o' path =
      let b = Reach-Between o o' path in
      let k = b.theirs in
      let to = reader side l in
      rw (sym b.from_sound.given_bytes) (
        next_lem k.isn k.accepted k.ended to.delivered to.connection.receiver len
          (short k b.mine (writer side l) b.from_sound) b.to_sound.half.receives)

  -- Where the inbound stream of an end is at its end, whatever two fresh connections did and however
  -- their segments were lost, doubled and reordered: the stream of the other end was closed, and all
  -- that its calls of `write` took was read. The capacities are below 2^64 and 2^63, the initial
  -- sequence numbers are 32-bit numbers, and an end is given fewer than 2^31 bytes, and none after the
  -- end of its input.
  pub eof-Link :
      IsOpen cfg random
      → IsOpen cfg' random'
      → Reach (fresh cfg random cfg' random') l
      → ByteStream.eof (reader side l).connection.receiver.reassembler.output ≡ true
      → ((writer side l).connection.sender.stream.input_ended ≡ true)
        × ((reader side l).delivered ≡ (writer side l).accepted)
  eof-Link o o' path at_end =
      let b = Reach-Between o o' path in
      let k = b.theirs in
      let (_, cutting, _) = b.from_sound.half.sends in
      let to = reader side l in
      let (over, all) =
        eof_lem k.isn k.accepted k.ended to.delivered to.connection.receiver
          b.to_sound.half.receives at_end in
      (cutting.same_ended ∙ over, all ∙ b.from_sound.given_bytes)
