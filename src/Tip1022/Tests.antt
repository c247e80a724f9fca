-- ===== src/Tip1022/Tests.antt =====
-- A virtual address of a master and a tag in mixed case.
use parly_relayer.Prelude.{
  ◌≡◌, refl, true, false, some, Text, codes, ok, err, ◌>>=◌, to_lower, is_prefixed, is_hex_digit,
  is_lower_hex_digit, is_address, text_eq,
}
use parly_relayer.Tip1022.{
  tag_mismatch, is_master_id, is_user_tag, require_tip1022_master_id, require_tip1022_user_tag,
  derive_tip1022_virtual_address, decode_tip1022_virtual_address, binds_tag,
  assert_tip1022_virtual_address_binding, is_tip1022_virtual_address,
}
use parly_relayer.Tip1022.Roundtrip.{decode-derive_tip1022_virtual_address}

tip1022 : Unit {0}
unfolding is_master_id is_user_tag require_tip1022_master_id require_tip1022_user_tag
    derive_tip1022_virtual_address decode_tip1022_virtual_address binds_tag
    assert_tip1022_virtual_address_binding is_tip1022_virtual_address to_lower is_prefixed
    is_hex_digit is_lower_hex_digit is_address text_eq
tip1022 = tt

abbrev master : Text
master = codes "0x0123ABcd"

abbrev tag : Text
tag = codes "0x0123456789Ef"

abbrev address : Text
address = codes "0x0123abcdfdfdfdfdfdfdfdfdfdfd0123456789ef"

derives : derive_tip1022_virtual_address master tag ≡ ok address
unfolding tip1022
derives = refl

is_virtual : is_tip1022_virtual_address address ≡ true
unfolding tip1022
is_virtual = refl

not_virtual :
    is_tip1022_virtual_address (codes "0x0123abcd00000000000000000000000123456789") ≡ false
unfolding tip1022
not_virtual = refl

other_tag :
    assert_tip1022_virtual_address_binding address master (some (codes "0x000000000000"))
    ≡ err tag_mismatch
unfolding tip1022
other_tag = refl

master-is_master_id : is_master_id master ≡ true
unfolding tip1022
master-is_master_id = refl

tag-is_user_tag : is_user_tag tag ≡ true
unfolding tip1022
tag-is_user_tag = refl

decode-derive_tip1022_virtual_address_example :
    (derive_tip1022_virtual_address master tag >>= decode_tip1022_virtual_address)
    ≡ ok (record { master_id = to_lower master; user_tag = to_lower tag })
decode-derive_tip1022_virtual_address_example =
    decode-derive_tip1022_virtual_address master tag master-is_master_id tag-is_user_tag
