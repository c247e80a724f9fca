-- ===== src/Tip1022/Roundtrip.antt =====
-- Deriving a virtual address and decoding one are inverse.
use parly_relayer.Prelude.{
  ℕ, zero, suc, ◌+◌, ◌≡◌, refl, ap, ◌∙◌, subst, Bool, true, false, [], ◌∷◌, ◌++◌, take, drop,
  length, all, take-append, take_all, all-append, map-append, length-append, length-map, ok, ◌>>=◌,
  ◌>>◌, guard, Text, text_eq, text_eq_iff, to_lower, to_lower_idem, lower_char, is_prefixed,
  is_hex_digit, is_lower_hex_digit, is_address, arith, ==_iff,
}
use parly_relayer.Tip1022.{
  bad_address, magic_mismatch, prefix_0x, magic, slice, is_master_id, is_user_tag,
  require_tip1022_master_id, require_tip1022_user_tag, derive_tip1022_virtual_address,
  decode_tip1022_virtual_address,
}

lower_char-hex : (c : ℕ) → is_hex_digit c ≡ true → is_hex_digit (lower_char c) ≡ true
unfolding is_hex_digit is_lower_hex_digit lower_char
lower_char-hex c h = ground (arith, h)

to_lower-hex : (t : Text) → all is_hex_digit t ≡ true → all is_hex_digit (to_lower t) ≡ true
unfolding to_lower
to_lower-hex [] h = refl
to_lower-hex (c ∷ t) h = ground (arith, h, lower_char-hex c, to_lower-hex t)

-- The digits of a prefixed identity, in lower case.
digits :
    (n : ℕ) (t : Text)
    → is_prefixed is_hex_digit n t ≡ true
    → (ds : Text) × (to_lower t ≡ prefix_0x ds)
      × (to_lower ds ≡ ds)
      × (length ds ≡ n)
      × (all is_hex_digit ds ≡ true)
unfolding is_prefixed to_lower lower_char
digits n [] h = cc
digits n (x ∷ []) h = cc
digits n (x ∷ y ∷ s) h =
    let ex : lower_char x ≡ b'0' = ap lower_char ((==_iff x b'0').0 (ground (arith, h))) in
    let ey : lower_char y ≡ b'x' = ap lower_char ((==_iff y b'x').0 (ground (arith, h))) in
    (
      to_lower s,
      cc (ex, ey),
      to_lower_idem s,
      (length-map lower_char s ∙ (==_iff (length s) n).0 (ground (arith, h))),
      to_lower-hex s (ground (arith, h)),
    )

drop_past : (xs ys : Text) (n m : ℕ) → length xs + n ≡ m → drop m (xs ++ ys) ≡ drop n ys
drop_past [] ys n m e = ap (λ k. drop k ys) (omega (arith, e))
drop_past (x ∷ xs) ys n zero e = absurd (omega (arith, e))
drop_past (x ∷ xs) ys n (suc m) e = drop_past xs ys n m (omega (arith, e))

-- The three parts of an address in lower case.
parts :
    (ms us : Text)
    → length ms ≡ 8
    → length us ≡ 12
    → (slice 10 30 (prefix_0x (ms ++ (magic ++ us))) ≡ magic)
      × (slice 2 10 (prefix_0x (ms ++ (magic ++ us))) ≡ ms)
      × (slice 30 42 (prefix_0x (ms ++ (magic ++ us))) ≡ us)
parts ms us m u = (
  ap (take 20) (drop_past ms (magic ++ us) 0 8 (omega (arith, m))),
  subst (λ n. take n (ms ++ (magic ++ us)) ≡ ms) m (take-append ms (magic ++ us)),
  ap (take 12) (drop_past ms (magic ++ us) 20 28 (omega (arith, m)))
      ∙ take_all 12 us (omega (arith, u)),
)

required_master :
    (master ms : Text)
    → is_master_id master ≡ true
    → to_lower master ≡ prefix_0x ms
    → require_tip1022_master_id master ≡ ok (prefix_0x ms)
unfolding require_tip1022_master_id
required_master master ms h e = ground (arith, h) ∙ ap ok e

required_tag :
    (tag us : Text)
    → is_user_tag tag ≡ true
    → to_lower tag ≡ prefix_0x us
    → require_tip1022_user_tag tag ≡ ok (prefix_0x us)
unfolding require_tip1022_user_tag
required_tag tag us h e = ground (arith, h) ∙ ap ok e

derived :
    (master tag : Text)
    → (ms us : Text) → is_master_id master ≡ true
    → is_user_tag tag ≡ true
    → to_lower master ≡ prefix_0x ms
    → to_lower tag ≡ prefix_0x us
    → derive_tip1022_virtual_address master tag ≡ ok (prefix_0x (ms ++ (magic ++ us)))
unfolding derive_tip1022_virtual_address require_tip1022_master_id require_tip1022_user_tag
    is_master_id is_user_tag
derived master tag ms us hm hu em eu =
    ap
      (λ r. r >>= (λ m.
        require_tip1022_user_tag tag >>= (λ t. ok (prefix_0x (drop 2 m ++ (magic ++ drop 2 t))))))
      (required_master master ms hm em)
    ∙ ap (λ r. r >>= (λ t. ok (prefix_0x (ms ++ (magic ++ drop 2 t))))) (required_tag tag us hu eu)

guarded :
    {A : Type 0} (a b : Bool) (value : A)
    → a ≡ true
    → b ≡ true
    → (guard a bad_address >> (guard b magic_mismatch >> ok value)) ≡ ok value
guarded true true value h k = refl
guarded false b value h k = cc
guarded true false value h k = cc

decoded :
    (address ms us : Text)
    → is_address address ≡ true
    → to_lower address ≡ prefix_0x (ms ++ (magic ++ us))
    → length ms ≡ 8
    → length us ≡ 12
    → decode_tip1022_virtual_address address
      ≡ ok (record { master_id = prefix_0x ms; user_tag = prefix_0x us })
unfolding decode_tip1022_virtual_address
decoded address ms us h e m u =
    let (whole, master, tag) = parts ms us m u in
    guarded (is_address address) (text_eq (slice 10 30 (to_lower address)) magic) _ h
      ((text_eq_iff (slice 10 30 (to_lower address)) magic).1 (ap (slice 10 30) e ∙ whole))
    ∙ cc (ap (slice 2 10) e ∙ master, ap (slice 30 42) e ∙ tag)

addressed :
    (ms us : Text)
    → length ms ≡ 8
    → length us ≡ 12
    → all is_hex_digit ms ≡ true
    → all is_hex_digit us ≡ true
    → is_address (prefix_0x (ms ++ (magic ++ us))) ≡ true
unfolding is_address is_prefixed is_hex_digit is_lower_hex_digit
addressed ms us m u hm hu =
    let n : length (ms ++ (magic ++ us)) ≡ 40 =
      omega (arith, length-append ms (magic ++ us), m, u) in
    ground (arith, n, all-append is_hex_digit ms (magic ++ us) hm hu)

lowered :
    (ms us : Text)
    → to_lower ms ≡ ms
    → to_lower us ≡ us
    → to_lower (prefix_0x (ms ++ (magic ++ us))) ≡ prefix_0x (ms ++ (magic ++ us))
unfolding to_lower lower_char
lowered ms us hm hu = cc (map-append lower_char ms (magic ++ us), hm, hu)

-- The address that a master id and a user tag give is decoded to the two of them, in lower case.
pub decode-derive_tip1022_virtual_address :
    (master tag : Text)
    → is_master_id master ≡ true
    → is_user_tag tag ≡ true
    → (derive_tip1022_virtual_address master tag >>= decode_tip1022_virtual_address)
      ≡ ok (record { master_id = to_lower master; user_tag = to_lower tag })
unfolding is_master_id is_user_tag
decode-derive_tip1022_virtual_address master tag hm hu =
    let (ms, em, im, lm, am) = digits 8 master hm in
    let (us, eu, iu, lu, au) = digits 12 tag hu in
    ap (λ r. r >>= decode_tip1022_virtual_address) (derived master tag ms us hm hu em eu)
    ∙ decoded (prefix_0x (ms ++ (magic ++ us))) ms us (addressed ms us lm lu am au)
        (lowered ms us im iu) lm lu
    ∙ cc (em, eu)
