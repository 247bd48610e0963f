-- ===== src/Database/Keys.antt =====
-- src/blockchain_db.cpp: the keys of heights and the bytes of the vault, written and read back.
use mathlib.Core.List.{append_assoc, append-nil}
use cryptopeg.Prelude.{
  ℕ, ◌<◌, ◌^◌, ◌≡◌, refl, sym, ap, ◌∙◌, arith, List, [], ◌++◌, length, some, ◌==◌, ltb, bytes_eq,
  bytes_eq_iff,
}
use cryptopeg.Errors.{ok}
use cryptopeg.Vault.{Vault}
use cryptopeg.Serial.Format.{u64_bytes, length-le_bytes, write_u64-append, read_u64-u64_bytes}
use cryptopeg.Serial.BigEndian.{to_big_endian_64, to_big_endian_64_lem, to_big_endian_64-lt}
use cryptopeg.Quorum.{lex_lt}
use cryptopeg.Quorum.Lex.{lex_irrefl}
use cryptopeg.Database.{height_key, height_of, vault_bytes, read_amounts}

height_key-eq : (h : ℕ) → height_key h ≡ u64_bytes (to_big_endian_64 h)
unfolding height_key
height_key-eq h = write_u64-append [] (to_big_endian_64 h)

pub length-height_key : (h : ℕ) → length (height_key h) ≡ 8
unfolding u64_bytes
length-height_key h = rw (height_key-eq h) (length-le_bytes 8 0 (to_big_endian_64 h))

not_below_self : (x y : ℕ) (xs ys : List ℕ) → xs ≡ ys → lex_lt xs ys ≡ ltb x y → ltb x y ≡ ltb x x
not_below_self x y xs ys e l = ground (arith, lex_irrefl ys, ap (λ zs. lex_lt zs ys) e)

-- Two heights of 64 bits have the same key exactly if they are equal.
pub bytes_eq-height_key :
    (x y : ℕ) → x < 2 ^ 64 → y < 2 ^ 64 → bytes_eq (height_key x) (height_key y) ≡ (x == y)
bytes_eq-height_key x y hx hy = ground (
  arith,
  bytes_eq_iff (height_key x) (height_key y),
  ap height_key {x = x} {y = y},
  height_key_injective,
)
  where
    height_key_injective : height_key x ≡ height_key y → x ≡ y
    height_key_injective e =
        let keys : u64_bytes (to_big_endian_64 x) ≡ u64_bytes (to_big_endian_64 y) =
          sym (height_key-eq x) ∙ e ∙ height_key-eq y in
        ground (
          arith,
          not_below_self x y _ _ keys (to_big_endian_64_lem x y hx hy).0,
          not_below_self y x _ _ (sym keys) (to_big_endian_64_lem y x hy hx).0,
        )

-- A height is read back from its key.
pub height_of-height_key : (h : ℕ) → h < 2 ^ 64 → height_of (height_key h) ≡ some h
unfolding height_of
height_of-height_key h lt =
    rw
      (
        length-height_key h,
        height_key-eq h,
        sym (append-nil (u64_bytes (to_big_endian_64 h))),
        read_u64-u64_bytes (to_big_endian_64 h) [] (to_big_endian_64-lt h),
        (to_big_endian_64_lem h h lt lt).1,
      )
      refl

vault_bytes-eq :
    (v : Vault)
    → vault_bytes v
      ≡ u64_bytes v.total_collateral
        ++ (u64_bytes v.circulating_supply ++ (u64_bytes v.fee_pool_reserve ++ []))
unfolding vault_bytes
vault_bytes-eq v = simp (write_u64-append, append_assoc, append-nil)

-- The amounts of a vault are read back from its bytes.
pub read_amounts-vault_bytes :
    (v : Vault)
    → v.total_collateral < 2 ^ 64
    → v.circulating_supply < 2 ^ 64
    → v.fee_pool_reserve < 2 ^ 64
    → read_amounts (vault_bytes v)
      ≡ ok (v.total_collateral, v.circulating_supply, v.fee_pool_reserve)
unfolding read_amounts
read_amounts-vault_bytes v hc hs hf =
    rw
      (
        vault_bytes-eq v,
        read_u64-u64_bytes v.total_collateral _ hc,
        read_u64-u64_bytes v.circulating_supply _ hs,
        read_u64-u64_bytes v.fee_pool_reserve [] hf,
      )
      refl
