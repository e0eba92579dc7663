-- ===== src/StreamCopy/Callbacks.antt =====
-- Every callback and every cancellation keeps the balance, also where it throws.
use computer_network.Base.{
  ◌≡◌, ap, ◌∙◌, Bool, true, false, List, min, if_holds, Outcome, returned, threw, state_after, All,
}
use computer_network.ByteStream.{ByteStream}
use computer_network.ByteStream
use computer_network.ByteStream.Order.{end_input-IsValid}
use computer_network.FileDescriptor.{FdWrapper, Writev, buffer_size, register_write}
use computer_network.FileDescriptor
use computer_network.Socket.{shut_wr}
use computer_network.Socket
use computer_network.EventLoop.{Rule, Event, add_rule, Result, success, exit, timeout}
use computer_network.EventLoop.Keeping.{Keeps}
use computer_network.StreamCopy.{
  Copy, Calls, pull, push, read_input, end_outbound, shutdown_socket, write_socket, read_socket,
  end_inbound, close_output, write_output, rules, after_round,
}
use computer_network.StreamCopy.Moves.{bytes_or_none, pull_lem, push_lem, system-push}
use computer_network.StreamCopy.Balance.{
  Traffic, IsSystem, Balanced, pulled_out, pulled_in, pushed_out, pushed_in,
}

module _ {System : Type 0} (traffic : System → Traffic) where
  abbrev pub Conserved : Copy System → Type 0
  Conserved w = Balanced (traffic w.system) w.outbound w.inbound

  module _ (calls : Calls System) (os : IsSystem traffic calls) where
    abbrev pub ConservedAfter : Outcome (Copy System) → Type 0
    ConservedAfter o = Conserved (state_after o)

    read_input-Conserved :
        (w : Copy System) → Conserved w → Conserved (state_after (read_input calls w))
    unfolding read_input ConservedAfter
    read_input-Conserved w v =
        let limit = ByteStream.remaining_capacity w.outbound in
        let n = min buffer_size limit in
        let (result, system) = calls.read_input n w.system in
        let (valid, kept, same) =
          pull_lem result w.input w.outbound system v.out_valid (os.input_within n w.system) in
        let m = pull limit (calls.read_input n w.system) w.input w.outbound in
        let v' =
          pulled_out (traffic w.system) (traffic m.system) w.outbound w.inbound m.stream valid v
            (bytes_or_none result) kept (ap traffic same ∙ os.input_read n w.system) in
        if_holds ConservedAfter m.threw (λ _. v') (λ _. v')

    read_socket-Conserved :
        (w : Copy System) → Conserved w → Conserved (state_after (read_socket calls w))
    unfolding read_socket ConservedAfter
    read_socket-Conserved w v =
        let limit = ByteStream.remaining_capacity w.inbound in
        let n = min buffer_size limit in
        let (result, system) = calls.read_socket n w.system in
        let (valid, kept, same) =
          pull_lem result w.socket w.inbound system v.in_valid (os.socket_within n w.system) in
        let m = pull limit (calls.read_socket n w.system) w.socket w.inbound in
        let v' =
          pulled_in (traffic w.system) (traffic m.system) w.outbound w.inbound m.stream valid v
            (bytes_or_none result) kept (ap traffic same ∙ os.socket_read n w.system) in
        if_holds ConservedAfter m.threw (λ _. v') (λ _. v')

    shutdown_socket-Conserved :
        (w : Copy System) → Conserved w → Conserved (state_after (shutdown_socket calls w))
    unfolding shutdown_socket Socket.shutdown
    shutdown_socket-Conserved w v =
        shut (calls.shutdown_socket w.system).0 (calls.shutdown_socket w.system).1
          (rw (os.shutdown_quiet w.system) v)
      where
        shut :
            (ok : Bool) (system : System)
            → Balanced (traffic system) w.outbound w.inbound
            → Conserved (
                state_after {S = Copy System}
                  (elim (Socket.shutdown ok shut_wr w.socket) as (λ _. Outcome (Copy System)) [
                    | threw f ↦ threw (record w { socket = f; system = system })
                    | returned f ↦
                        returned
                          (record w { socket = f; outbound_shutdown = true; system = system })
                  ]))
        shut true system quiet = quiet
        shut false system quiet = quiet

    close_output-Conserved :
        (w : Copy System) → Conserved w → Conserved (state_after (close_output calls w))
    unfolding close_output FileDescriptor.close
    close_output-Conserved w v =
        closed (calls.close_output w.system).0 (calls.close_output w.system).1
          (rw (os.close_quiet w.system) v)
      where
        closed :
            (ok : Bool) (system : System)
            → Balanced (traffic system) w.outbound w.inbound
            → Conserved (
                state_after {S = Copy System}
                  (elim (FileDescriptor.close ok w.output) as (λ _. Outcome (Copy System)) [
                    | threw f ↦ threw (record w { output = f; system = system })
                    | returned f ↦
                        returned (record w { output = f; inbound_shutdown = true; system = system })
                  ]))
        closed true system quiet = quiet
        closed false system quiet = quiet

    write_socket-Conserved :
        (w : Copy System) → Conserved w → Conserved (state_after (write_socket calls w))
    unfolding write_socket ConservedAfter
    write_socket-Conserved w v =
        let m = push calls.write_socket w.socket w.outbound w.system in
        let (valid, same) =
          push_lem (λ s. (traffic s).to_socket) calls.write_socket os.socket_pipe w.socket
            w.outbound w.system v.out_valid in
        let (views, left) = system-push calls.write_socket w.socket w.outbound w.system in
        let w' : Copy System = record w {
          socket = m.file;
          outbound = m.stream;
          system = m.system;
        } in
        let alone : traffic m.system
            ≡ record (traffic w.system) { to_socket = (traffic m.system).to_socket } =
          rw left (os.socket_alone views w.system) in
        let v' : Conserved w' =
          pushed_out (traffic w.system) (traffic m.system) w.outbound w.inbound m.stream valid v
            (traffic m.system).to_socket same alone in
        if_holds ConservedAfter m.threw (λ _. v')
          (λ _.
            if_holds ConservedAfter (ByteStream.eof w'.outbound)
              (λ _. shutdown_socket-Conserved w' v') (λ _. v'))

    write_output-Conserved :
        (w : Copy System) → Conserved w → Conserved (state_after (write_output calls w))
    unfolding write_output ConservedAfter
    write_output-Conserved w v =
        let m = push calls.write_output w.output w.inbound w.system in
        let (valid, same) =
          push_lem (λ s. (traffic s).to_output) calls.write_output os.output_pipe w.output w.inbound
            w.system v.in_valid in
        let (views, left) = system-push calls.write_output w.output w.inbound w.system in
        let w' : Copy System = record w {
          output = m.file;
          inbound = m.stream;
          system = m.system;
        } in
        let alone : traffic m.system
            ≡ record (traffic w.system) { to_output = (traffic m.system).to_output } =
          rw left (os.output_alone views w.system) in
        let v' : Conserved w' =
          pushed_in (traffic w.system) (traffic m.system) w.outbound w.inbound m.stream valid v
            (traffic m.system).to_output same alone in
        if_holds ConservedAfter m.threw (λ _. v')
          (λ _.
            if_holds ConservedAfter (ByteStream.eof w'.inbound) (λ _. close_output-Conserved w' v')
              (λ _. v'))

    end_outbound-Conserved : (w : Copy System) → Conserved w → Conserved (end_outbound calls w)
    unfolding end_outbound ByteStream.end_input
    end_outbound-Conserved w v = record {
      out_valid = unfold ByteStream.end_input in end_input-IsValid w.outbound v.out_valid;
      in_valid = v.in_valid;
      out_kept = v.out_kept;
      in_kept = v.in_kept;
    }

    end_inbound-Conserved : (w : Copy System) → Conserved w → Conserved (end_inbound calls w)
    unfolding end_inbound ByteStream.end_input
    end_inbound-Conserved w v = record {
      out_valid = v.out_valid;
      in_valid = unfold ByteStream.end_input in end_input-IsValid w.inbound v.in_valid;
      out_kept = v.out_kept;
      in_kept = v.in_kept;
    }

    pub rules-Keeps : All (Keeps Conserved) (rules calls)
    unfolding rules add_rule
    rules-Keeps = (
      record { on_callback = read_input-Conserved; on_cancel = end_outbound-Conserved },
      (
        record { on_callback = write_socket-Conserved; on_cancel = end_outbound-Conserved },
        (
          record { on_callback = read_socket-Conserved; on_cancel = end_inbound-Conserved },
          (record { on_callback = write_output-Conserved; on_cancel = end_inbound-Conserved }, tt),
        ),
      ),
    )

    pub after_round-Conserved :
        (again : List (Rule (Copy System)) → Copy System → Event (Copy System)) (result : Result)
        (left : List (Rule (Copy System))) (world : Outcome (Copy System))
        → ConservedAfter world
        → ((w : Copy System) → Conserved w → ConservedAfter (again left w).world)
        → ConservedAfter
            (after_round again (record { result = result; rules = left; world = world })).world
    unfolding after_round ConservedAfter
    after_round-Conserved again exit left world v h = v
    after_round-Conserved again success left (threw w) v h = v
    after_round-Conserved again success left (returned w) v h = h w v
    after_round-Conserved again timeout left (threw w) v h = v
    after_round-Conserved again timeout left (returned w) v h = h w v
