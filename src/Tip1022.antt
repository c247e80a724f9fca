-- ===== src/Tip1022.antt =====
-- packages/shared-types/src/phase3/tip1022.ts: virtual addresses, in which the address of a master on
-- Tempo carries the tag of a user. An identity is a text, as in the source.
pub mod Roundtrip
mod Tests
use parly_relayer.Prelude.{
  ℕ, ◌-◌, Bool, true, false, ◌&&◌, if◌then◌else◌, Option, none, some, List, [], ◌∷◌, ◌++◌, take,
  drop, Result, ok, err, ◌>>=◌, ◌>>◌, guard, Text, codes, text_eq, is_nonempty, to_lower,
  is_prefixed, is_hex_digit, is_address,
}

pub data TipError : Type 0 where
  bad_master_id bad_user_tag bad_address magic_mismatch master_mismatch tag_mismatch : TipError

pub record Decoded : Type 0 where
  pub master_id : Text
  pub user_tag : Text

abbrev pub prefix_0x : Text → Text
prefix_0x t = b'0' ∷ b'x' ∷ t

abbrev pub magic : Text
magic = codes "fdfdfdfdfdfdfdfdfdfd"

-- `t.slice(from, to)`, for `from <= to`.
abbrev pub slice : ℕ → ℕ → Text → Text
slice from to t = take (to - from) (drop from t)

pub is_master_id : Text → Bool
is_master_id t = is_prefixed is_hex_digit 8 t

pub is_user_tag : Text → Bool
is_user_tag t = is_prefixed is_hex_digit 12 t

pub require_tip1022_master_id : Text → Result TipError Text
unfolding is_master_id
require_tip1022_master_id master_id =
    if is_master_id master_id then ok (to_lower master_id) else err bad_master_id

pub require_tip1022_user_tag : Text → Result TipError Text
unfolding is_user_tag
require_tip1022_user_tag user_tag =
    if is_user_tag user_tag then ok (to_lower user_tag) else err bad_user_tag

pub derive_tip1022_virtual_address : Text → Text → Result TipError Text
derive_tip1022_virtual_address master_id user_tag = do
  master ← require_tip1022_master_id master_id
  tag ← require_tip1022_user_tag user_tag
  ok (prefix_0x (drop 2 master ++ (magic ++ drop 2 tag)))

pub decode_tip1022_virtual_address : Text → Result TipError Decoded
decode_tip1022_virtual_address address = do
  guard (is_address address) bad_address
  guard (text_eq (slice 10 30 (to_lower address)) magic) magic_mismatch
  ok (record {
    master_id = prefix_0x (slice 2 10 (to_lower address));
    user_tag = prefix_0x (slice 30 42 (to_lower address));
  })

-- The comparison with an expected tag, which an absent or empty one passes.
pub binds_tag : Option Text → Decoded → Result TipError Decoded
binds_tag none decoded = ok decoded
binds_tag (some []) decoded = ok decoded
binds_tag (some (c ∷ t)) decoded = do
  tag ← require_tip1022_user_tag (c ∷ t)
  guard (text_eq decoded.user_tag tag) tag_mismatch
  ok decoded

pub assert_tip1022_virtual_address_binding :
    (address expected_master_id : Text) (expected_user_tag : Option Text) → Result TipError Decoded
assert_tip1022_virtual_address_binding address expected_master_id expected_user_tag = do
  decoded ← decode_tip1022_virtual_address address
  master ← require_tip1022_master_id expected_master_id
  guard (text_eq decoded.master_id master) master_mismatch
  binds_tag expected_user_tag decoded

succeeds : Result TipError Decoded → Bool
succeeds (ok decoded) = true
succeeds (err thrown) = false

pub is_tip1022_virtual_address : Text → Bool
unfolding succeeds
is_tip1022_virtual_address address = succeeds (decode_tip1022_virtual_address address)
