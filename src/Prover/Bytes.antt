-- ===== src/Prover/Bytes.antt =====
-- What a proof's bytes are bound to.
use native.Mathlib.Nat.{pow-suc}
use mathlib.Core.List.{append_assoc}
use computing_api.Base.{
  Str, [], ap, arith, drop, drop-append, length, refl, suc, sym, zero, ℕ, ◌*◌, ◌++◌, ◌+◌, ◌/◌, ◌<◌,
  ◌^◌, ◌∙◌, ◌∷◌, ◌≡◌,
}
use computing_api.Prover.{node_bytes, proof_bytes, put_uint64}

-- `LittleEndian.Uint64`
abbrev uint64 : Str → ℕ
uint64 [] = 0
uint64 (b ∷ s) = b + 256 * uint64 s

below : {n : ℕ} (m : ℕ) → n < m * 256 → n / 256 < m
below m h = omega arith

uint64-put_uint64 : (bytes n : ℕ) → n < 256 ^ bytes → uint64 (put_uint64 bytes n) ≡ n
unfolding put_uint64
uint64-put_uint64 zero n h = omega arith
uint64-put_uint64 (suc bytes) n h =
    omega (arith, uint64-put_uint64 bytes (n / 256) (below (256 ^ bytes) (rw pow-suc at h)))

same_head :
    (n a b : ℕ) (s t : Str)
    → put_uint64 n a ++ s ≡ put_uint64 n b ++ t
    → (put_uint64 n a ≡ put_uint64 n b) × (s ≡ t)
unfolding put_uint64
same_head zero a b s t h = (refl, h)
same_head (suc n) a b s t h = let (e, rest) = same_head n (a / 256) (b / 256) s t cc in (cc, rest)

same_number : (a b : ℕ) → a < 2 ^ 64 → b < 2 ^ 64 → put_uint64 8 a ≡ put_uint64 8 b → a ≡ b
same_number a b ha hb h =
    sym (uint64-put_uint64 8 a (omega arith)) ∙ ap uint64 h ∙ uint64-put_uint64 8 b (omega arith)

-- Two proofs of one address with the same bytes are of the same id and have the same nonce.
proof_bytes-injective :
    (hex2bytes : Str → Str) (address : Str) (id id' nonce nonce' : ℕ)
    → id < 2 ^ 64
    → id' < 2 ^ 64
    → nonce < 2 ^ 64
    → nonce' < 2 ^ 64
    → proof_bytes hex2bytes (record { node = record { address = address; id = id }; nonce = nonce })
      ≡ proof_bytes hex2bytes
          (record { node = record { address = address; id = id' }; nonce = nonce' })
    → (id ≡ id') × (nonce ≡ nonce')
unfolding proof_bytes node_bytes
proof_bytes-injective hex2bytes address id id' nonce nonce' h1 h2 h3 h4 h =
    let behind : put_uint64 8 id ++ put_uint64 8 nonce ≡ put_uint64 8 id' ++ put_uint64 8 nonce' =
      sym (drop-append (hex2bytes address) _)
      ∙ ap (drop (length (hex2bytes address)))
          (sym (append_assoc (hex2bytes address) _ _) ∙ h ∙ append_assoc (hex2bytes address) _ _)
      ∙ drop-append (hex2bytes address) _ in
    let (ids, nonces) = same_head 8 id id' _ _ behind in
    (same_number id id' h1 h2 ids, same_number nonce nonce' h3 h4 nonces)
