-- ===== src/ByteStream/Appends.antt =====
-- What a stream holds, while it is only written to: more at its end.
use computer_network.Base.{ℕ, ◌≡◌, sym, ap, ◌∙◌, List, [], ◌++◌, append-nil, append_assoc, take}
use computer_network.ByteStream.{ByteStream, write, end_input, set_error, write_count}
use computer_network.ByteStream.Validity.{IsValid, held, held-write, write-IsValid}
use computer_network.ByteStream.Order.{end_input-IsValid, set_error-IsValid}

-- A stream that is as valid as before, and holds what it held, with some bytes behind.
pub record Appends (s s' : ByteStream) : Type 0 where
  pub valid : IsValid s → IsValid s'
  pub more : (bytes : List ℕ) × (held s' ≡ held s ++ bytes)

pub Appends-refl : (s : ByteStream) → Appends s s
Appends-refl s = record { valid = λ v. v; more = ([], sym (append-nil (held s))) }

pub Appends-trans : (s t u : ByteStream) → Appends s t → Appends t u → Appends s u
Appends-trans s t u a b =
    let (bytes, e) = a.more in
    let (bytes', e') = b.more in
    record {
      valid = λ v. b.valid (a.valid v);
      more = (bytes ++ bytes', e' ∙ ap (λ l. l ++ bytes') e ∙ append_assoc (held s) bytes bytes');
    }

pub write-Appends : (bytes : List ℕ) (s : ByteStream) → Appends s (write bytes s)
write-Appends bytes s = record {
  valid = write-IsValid bytes s;
  more = (take (write_count bytes s) bytes, held-write bytes s);
}

pub end_input-Appends : (s : ByteStream) → Appends s (end_input s)
unfolding end_input
end_input-Appends s = record {
  valid = λ v. unfold end_input in end_input-IsValid s v;
  more = ([], sym (append-nil (held s)));
}

pub set_error-Appends : (s : ByteStream) → Appends s (set_error s)
unfolding set_error
set_error-Appends s = record {
  valid = λ v. unfold set_error in set_error-IsValid s v;
  more = ([], sym (append-nil (held s)));
}
