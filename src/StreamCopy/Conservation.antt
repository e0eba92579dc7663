-- ===== src/StreamCopy/Conservation.antt =====
-- Over the whole loop, no byte is lost, doubled or moved, in either direction.
use computer_network.Base.{
  ℕ, zero, suc, ◌^◌, ◌-◌, ◌≡◌, sym, ap, ◌∙◌, Bool, List, [], ◌++◌, append-nil, state_after, All,
  arith,
}
use computer_network.ByteStream.{ByteStream}
use computer_network.ByteStream
use computer_network.ByteStream.Validity.{held, init-IsValid}
use computer_network.BufferList.Contents.{contents-empty}
use computer_network.FileDescriptor.{FdWrapper}
use computer_network.EventLoop.{Rule, Polled, wait_next_event}
use computer_network.EventLoop.Keeping.{Keeps, wait_next_event-Keeps}
use computer_network.StreamCopy.{stream_capacity, start, Copy, Calls, rules, copy_loop}
use computer_network.StreamCopy.Balance.{Traffic, IsSystem}
use computer_network.StreamCopy.Callbacks.{
  Conserved, ConservedAfter, rules-Keeps, after_round-Conserved,
}

-- `poll` moves no bytes and leaves the streams alone.
pub record IsQuiet {System : Type 0} (traffic : System → Traffic)
    (poll : List (Rule (Copy System) × Bool) → ℕ → Copy System → Polled × Copy System)
    : Type 0 where
  pub same_outbound :
      (polls : List (Rule (Copy System) × Bool)) (t : ℕ) (w : Copy System)
      → (poll polls t w).1.outbound ≡ w.outbound
  pub same_inbound :
      (polls : List (Rule (Copy System) × Bool)) (t : ℕ) (w : Copy System)
      → (poll polls t w).1.inbound ≡ w.inbound
  pub same_traffic :
      (polls : List (Rule (Copy System) × Bool)) (t : ℕ) (w : Copy System)
      → traffic (poll polls t w).1.system ≡ traffic w.system

held-init : held (ByteStream.init stream_capacity) ≡ []
unfolding ByteStream.init
held-init = contents-empty

module _ {System : Type 0} (traffic : System → Traffic) (calls : Calls System)
    (poll : List (Rule (Copy System) × Bool) → ℕ → Copy System → Polled × Copy System)
    (os : IsSystem traffic calls) (quiet : IsQuiet traffic poll) where
  polled :
      (polls : List (Rule (Copy System) × Bool)) (t : ℕ) (w : Copy System)
      → Conserved traffic w
      → Conserved traffic (poll polls t w).1
  polled polls t w v =
      rw (quiet.same_traffic polls t w, quiet.same_outbound polls t w, quiet.same_inbound polls t w)
        v

  copy_loop-Conserved :
      (rounds : ℕ) (left : List (Rule (Copy System))) (w : Copy System)
      → All (Keeps (Conserved traffic)) left
      → Conserved traffic w
      → Conserved traffic (state_after (copy_loop poll rounds left w).world)
  unfolding copy_loop ConservedAfter
  copy_loop-Conserved zero left w k v = v
  copy_loop-Conserved (suc rounds) left w k v =
      let (v', k') =
        wait_next_event-Keeps (Conserved traffic) poll polled (2 ^ 32 - 1) left w k v in
      let e = wait_next_event poll (2 ^ 32 - 1) left w in
      after_round-Conserved traffic calls os (λ left' w'. copy_loop poll rounds left' w') e.result
        e.rules e.world v' (λ w' q. copy_loop-Conserved rounds e.rules w' k' q)

  -- However many rounds the loop of bidirectional_stream_copy runs, whatever is ready when, and where it
  -- throws: what was read from the standard input is what the socket took followed by what the outbound
  -- stream holds, and what was read from the socket is what the standard output took followed by what
  -- the inbound stream holds, when this is so before the first round, with both streams empty.
  pub copy_loop-conserves :
      (rounds : ℕ) (socket : FdWrapper) (system : System)
      → (traffic system).from_input ≡ (traffic system).to_socket
      → (traffic system).from_socket ≡ (traffic system).to_output
      → (let w = state_after (copy_loop poll rounds (rules calls) (start socket system)).world in
          let t = traffic w.system in
          (t.from_input ≡ t.to_socket ++ held w.outbound)
          × (t.from_socket ≡ t.to_output ++ held w.inbound))
  unfolding start
  copy_loop-conserves rounds socket system e e' =
      let nothing : (l : List ℕ) → l ≡ l ++ held (ByteStream.init stream_capacity) =
        λ l. sym (append-nil l) ∙ ap (◌++◌ l) (sym held-init) in
      let v =
        copy_loop-Conserved rounds (rules calls) (start socket system)
          (rules-Keeps traffic calls os)
          (record {
            out_valid = init-IsValid stream_capacity (omega arith);
            in_valid = init-IsValid stream_capacity (omega arith);
            out_kept = e ∙ nothing _;
            in_kept = e' ∙ nothing _;
          }) in
      (v.out_kept, v.in_kept)
