-- ===== src/Execution/Hex.antt =====
-- About execution.rs and reconcile.rs: the texts that a write-ahead payload carries in hexadecimal.
use polymarket_watch_rust.Base.Lists.{All}
use polymarket_watch_rust.Base.Outcome.{ok}
use polymarket_watch_rust.Base.Tests.{[], ap, arith, refl, ℕ, ◌%◌, ◌*◌, ◌+◌, ◌/◌, ◌<◌, ◌∷◌, ◌≡◌}
use polymarket_watch_rust.Execution.{hex_bytes, hex_digit}
use polymarket_watch_rust.Journal.{Bytes}
use polymarket_watch_rust.Reconcile.Mappings.{decode_pairs, hex_nibble}

hex_nibble-hex_digit : (n : ℕ) → n < 16 → hex_nibble (hex_digit n) ≡ ok n
unfolding hex_nibble
hex_nibble-hex_digit n h = ground arith

-- What execution writes in hexadecimal into a write-ahead payload, reconciliation decodes to
-- the same bytes.
pub decode_pairs-hex_bytes :
    (bytes : Bytes) → All (λ b. b < 256) bytes → decode_pairs (hex_bytes bytes) ≡ ok bytes
unfolding decode_pairs hex_bytes
decode_pairs-hex_bytes [] h = refl
decode_pairs-hex_bytes (b ∷ bytes) h =
    let whole : b / 16 * 16 + b % 16 ≡ b = omega arith in
    simp
      (
        hex_nibble-hex_digit (b / 16) (omega (arith, h.0)),
        hex_nibble-hex_digit (b % 16) (omega arith),
        decode_pairs-hex_bytes bytes h.1,
      )
      (ap (λ n. ok (n ∷ bytes)) whole)
