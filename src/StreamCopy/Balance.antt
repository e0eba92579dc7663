-- ===== src/StreamCopy/Balance.antt =====
-- What has gone through the descriptors, against what the two streams hold.
use computer_network.Base.{ℕ, ◌≤◌, ◌≡◌, sym, ap, ◌∙◌, List, ◌++◌, append_assoc, length}
use computer_network.ByteStream.{ByteStream}
use computer_network.ByteStream.Validity.{IsValid, held}
use computer_network.FileDescriptor.Partial.{IsPipe}
use computer_network.StreamCopy.{Calls}
use computer_network.StreamCopy.Moves.{bytes_or_none}

-- What has gone through the descriptors so far.
pub record Traffic : Type 0 where
  pub from_input : List ℕ
  pub to_socket : List ℕ
  pub from_socket : List ℕ
  pub to_output : List ℕ

-- The calls, as read(2) and writev(2) have it: a read gives no more than it is asked for, a write takes
-- some of the bytes in order or fails, and no call moves bytes through another descriptor.
pub record IsSystem {System : Type 0} (traffic : System → Traffic) (calls : Calls System)
    : Type 0 where
  pub input_within : (n : ℕ) (s : System) → length (bytes_or_none (calls.read_input n s).0) ≤ n
  pub input_read :
      (n : ℕ) (s : System)
      → traffic (calls.read_input n s).1 ≡ record (traffic s) {
        from_input = (traffic s).from_input ++ bytes_or_none (calls.read_input n s).0;
      }
  pub socket_within : (n : ℕ) (s : System) → length (bytes_or_none (calls.read_socket n s).0) ≤ n
  pub socket_read :
      (n : ℕ) (s : System)
      → traffic (calls.read_socket n s).1 ≡ record (traffic s) {
        from_socket = (traffic s).from_socket ++ bytes_or_none (calls.read_socket n s).0;
      }
  pub socket_pipe : IsPipe (λ s. (traffic s).to_socket) calls.write_socket
  pub socket_alone :
      (views : List (List ℕ)) (s : System)
      → (let t = traffic (calls.write_socket views s).1 in
          t ≡ record (traffic s) { to_socket = t.to_socket })
  pub output_pipe : IsPipe (λ s. (traffic s).to_output) calls.write_output
  pub output_alone :
      (views : List (List ℕ)) (s : System)
      → (let t = traffic (calls.write_output views s).1 in
          t ≡ record (traffic s) { to_output = t.to_output })
  pub shutdown_quiet : (s : System) → traffic (calls.shutdown_socket s).1 ≡ traffic s
  pub close_quiet : (s : System) → traffic (calls.close_output s).1 ≡ traffic s

-- What was read at one side was written at the other, or waits in the stream between.
pub record Balanced (t : Traffic) (outbound inbound : ByteStream) : Type 0 where
  pub out_valid : IsValid outbound
  pub in_valid : IsValid inbound
  pub out_kept : t.from_input ≡ t.to_socket ++ held outbound
  pub in_kept : t.from_socket ≡ t.to_output ++ held inbound

module _ (t t' : Traffic) (outbound inbound stream : ByteStream) (valid : IsValid stream)
    (v : Balanced t outbound inbound) where
  grown :
      (bytes from to : List ℕ) (before : ByteStream)
      → from ≡ to ++ held before
      → held stream ≡ held before ++ bytes
      → from ++ bytes ≡ to ++ held stream
  grown bytes from to before e kept =
      ap (λ l. l ++ bytes) e ∙ append_assoc to (held before) bytes ∙ ap (◌++◌ to) (sym kept)

  pub pulled_out :
      (bytes : List ℕ)
      → held stream ≡ held outbound ++ bytes
      → t' ≡ record t { from_input = t.from_input ++ bytes }
      → Balanced t' stream inbound
  pulled_out bytes kept e = rw e (record {
    out_valid = valid;
    in_valid = v.in_valid;
    out_kept = grown bytes t.from_input t.to_socket outbound v.out_kept kept;
    in_kept = v.in_kept;
  })

  pub pulled_in :
      (bytes : List ℕ)
      → held stream ≡ held inbound ++ bytes
      → t' ≡ record t { from_socket = t.from_socket ++ bytes }
      → Balanced t' outbound stream
  pulled_in bytes kept e = rw e (record {
    out_valid = v.out_valid;
    in_valid = valid;
    out_kept = v.out_kept;
    in_kept = grown bytes t.from_socket t.to_output inbound v.in_kept kept;
  })

  pub pushed_out :
      (to : List ℕ)
      → to ++ held stream ≡ t.to_socket ++ held outbound
      → t' ≡ record t { to_socket = to }
      → Balanced t' stream inbound
  pushed_out to same e = rw e (record {
    out_valid = valid;
    in_valid = v.in_valid;
    out_kept = v.out_kept ∙ sym same;
    in_kept = v.in_kept;
  })

  pub pushed_in :
      (to : List ℕ)
      → to ++ held stream ≡ t.to_output ++ held inbound
      → t' ≡ record t { to_output = to }
      → Balanced t' outbound stream
  pushed_in to same e = rw e (record {
    out_valid = v.out_valid;
    in_valid = valid;
    out_kept = v.out_kept;
    in_kept = v.in_kept ∙ sym same;
  })
