-- ===== src/Vpp/Naming/Bounds.antt =====
-- The length of a Linux interface name from pkg/vpp/lcp_naming.go.
use arca_router.Prelude.{
  ℕ, zero, suc, ◌≤◌, ◌<◌, Bool, true, ◌&&◌, refl, [], ◌∷◌, ◌++◌, some, Result, ok, err, ◌≡◌, arith,
  leb, ltb, if-intro, if◌then◌else◌, Option-intro, length, take, length-take, length-append, Bytes,
}
use arca_router.Vpp.Naming.{
  JunosInterfaceComponents, NameError, Names, max_linux_if_name_len, suffixed, base_linux_name,
  hash_suffix, generate_hashed_name, convert_matched, convert_junos_to_linux_name,
}

abbrev pub is_ascii : Bytes → Bool
is_ascii [] = true
is_ascii (b ∷ bs) = ltb b 128 && is_ascii bs

take-is_ascii : (n : ℕ) (bs : Bytes) → is_ascii bs ≡ true → is_ascii (take n bs) ≡ true
take-is_ascii zero bs h = refl
take-is_ascii (suc n) [] h = refl
take-is_ascii (suc n) (b ∷ bs) h = ground (arith, h, take-is_ascii n bs)

-- A SHA-256 hash is 43 characters of base64, which are ASCII, and the lower case of a text in ASCII
-- has its length.
pub record HashLaws (names : Names) : Type 0 where
  pub hash_length : (name : Bytes) → length (names.hash name) ≡ 43
  pub hash_ascii : (name : Bytes) → is_ascii (names.hash name) ≡ true
  pub lower_length :
      (text : Bytes) → is_ascii text ≡ true → length (names.to_lower text) ≡ length text

-- A name that Linux takes came out.
abbrev pub Fits : Result NameError Bytes → Type 0
Fits (ok name) = (0 < length name) × (length name ≤ max_linux_if_name_len)
Fits (err e) = ⊥

base_length : (c : JunosInterfaceComponents) → 0 < length (base_linux_name c)
unfolding base_linux_name
base_length c =
    let after = c.fpc ++ b'-' ∷ (c.pic ++ b'-' ∷ (c.port ++ suffixed b'v' c.vlan)) in
    omega (
      arith,
      length-append c.if_type after,
      length-append c.fpc (b'-' ∷ (c.pic ++ b'-' ∷ (c.port ++ suffixed b'v' c.vlan))),
    )

module _ (names : Names) (laws : HashLaws names) where
  length-hash_suffix : (name : Bytes) → length (hash_suffix names name) ≡ 5
  length-hash_suffix name = omega (
    arith,
    laws.lower_length (take 5 (names.hash name))
        (take-is_ascii 5 (names.hash name) (laws.hash_ascii name)),
    length-take 5 (names.hash name),
    laws.hash_length name,
  )

  generate_hashed_name-Fits : (name prefix : Bytes) → Fits (generate_hashed_name names name prefix)
  unfolding generate_hashed_name
  generate_hashed_name-Fits name prefix =
      let kept = if ltb 10 (length prefix) then take 10 prefix else prefix in
      let short : length kept ≤ 10 =
        if-intro (λ (x : Bytes). length x ≤ 10) (ltb 10 (length prefix))
          (λ _. omega (arith, length-take 10 prefix)) (λ h. ground (arith, h)) in
      let suffix = length-hash_suffix name in
      let whole = length-append kept (hash_suffix names name) in
      if-intro Fits (ltb 15 (length (kept ++ hash_suffix names name)))
        (λ h. ground (arith, h, whole, suffix, short))
        (λ h. (omega (arith, whole, suffix), omega (arith, whole, suffix, short)))

  -- With a hash of 43 ASCII characters and a lower case that keeps the length of ASCII text, every
  -- name of a byte or more that the regular expression matches is converted, to a name of 1 to 15
  -- bytes: the error for a name that is too long never occurs.
  pub convert_junos_to_linux_name-Fits :
      (b : ℕ) (bs : Bytes) (c : JunosInterfaceComponents)
      → names.find (b ∷ bs) ≡ some c
      → Fits (convert_junos_to_linux_name names (b ∷ bs))
  unfolding convert_junos_to_linux_name convert_matched base_linux_name
  convert_junos_to_linux_name-Fits b bs c e =
      Option-intro Fits (names.find (b ∷ bs)) _ _ (λ lost. ground (arith, lost, e))
        λ d f.
          if-intro Fits (leb (length (base_linux_name d)) 15)
            (λ h. (base_length d, ground (arith, h)))
            (λ h. generate_hashed_name-Fits (b ∷ bs) d.if_type)
