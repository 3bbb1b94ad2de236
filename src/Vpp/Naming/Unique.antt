-- ===== src/Vpp/Naming/Unique.antt =====
-- Names of pkg/vpp/lcp_naming.go without a hash.
use arca_router.Prelude.{
  ℕ, Bool, true, false, ◌&&◌, [], ◌∷◌, ◌++◌, some, ok, ◌≡◌, ◌≢◌, refl, sym, ap, ◌∙◌, arith, leb,
  ◌==◌, length, length-append, Bytes,
}
use arca_router.Vpp.Naming.{
  JunosInterfaceComponents, Names, suffixed, base_linux_name, convert_matched,
  convert_junos_to_linux_name,
}

-- `[a-z]` and `\d`
abbrev pub is_small_letter : ℕ → Bool
is_small_letter c = leb b'a' c && leb c b'z'

abbrev pub is_digit : ℕ → Bool
is_digit c = leb b'0' c && leb c b'9'

abbrev pub All : (ℕ → Bool) → Bytes → Type 0
All test [] = Unit {0}
All test (c ∷ cs) = (test c ≡ true) × All test cs

abbrev Stops : (ℕ → Bool) → Bytes → Type 0
Stops test [] = Unit {0}
Stops test (c ∷ cs) = test c ≡ false

-- Two runs with what follows them are equal part by part.
append-cancel :
    (test : ℕ → Bool) (xs ys r q : Bytes)
    → All test xs
    → All test ys
    → Stops test r
    → Stops test q
    → xs ++ r ≡ ys ++ q
    → (xs ≡ ys) × (r ≡ q)
append-cancel test [] [] r q a b c d e = (refl, e)
append-cancel test [] (y ∷ ys) [] q a b c d e = cc
append-cancel test [] (y ∷ ys) (x ∷ r) q a b c d e = ground (arith, e, b.0, c)
append-cancel test (x ∷ xs) [] r [] a b c d e = cc
append-cancel test (x ∷ xs) [] r (y ∷ q) a b c d e = ground (arith, e, a.0, d)
append-cancel test (x ∷ xs) (y ∷ ys) r q a b c d e =
    let (h, t) = append-cancel test xs ys r q a.1 b.1 c d (ground (arith, e)) in
    (ground (arith, e, h), t)

-- What the groups of `^([a-z]+)-(\d+)/(\d+)/(\d+)(?:\.(\d+))?$` match.
pub record IsMatch (name : Bytes) (c : JunosInterfaceComponents) : Type 0 where
  pub letters : All is_small_letter c.if_type
  pub fpc_digits : All is_digit c.fpc
  pub pic_digits : All is_digit c.pic
  pub port_digits : All is_digit c.port
  pub vlan_digits : All is_digit c.vlan
  pub has_fpc : (length c.fpc == 0) ≡ false
  pub whole :
      name
      ≡ c.if_type ++ b'-' ∷ (c.fpc ++ b'/' ∷ (c.pic ++ b'/' ∷ (c.port ++ suffixed b'.' c.vlan)))

abbrev pub Finds : Names → Type 0
Finds names =
    (name : Bytes) (c : JunosInterfaceComponents) → names.find name ≡ some c → IsMatch name c

tail_eq : {c d : ℕ} {r q : Bytes} → c ∷ r ≡ d ∷ q → r ≡ q
tail_eq e = cc

digits-Stops :
    (ds rest : Bytes)
    → All is_digit ds
    → (length ds == 0) ≡ false
    → Stops is_small_letter (ds ++ rest)
digits-Stops [] rest a n = ground (arith, n)
digits-Stops (d ∷ ds) rest a n = ground (arith, a.0)

suffixed-Stops : (vlan : Bytes) → Stops is_digit (suffixed b'v' vlan)
suffixed-Stops [] = tt
suffixed-Stops (c ∷ vlan) = refl

suffixed_injective : (v w : Bytes) → suffixed b'v' v ≡ suffixed b'v' w → v ≡ w
suffixed_injective [] [] e = refl
suffixed_injective [] (c ∷ w) e = cc
suffixed_injective (c ∷ v) [] e = cc
suffixed_injective (c ∷ v) (d ∷ w) e = cc

module _ (n m : Bytes) (c d : JunosInterfaceComponents) (j : IsMatch n c) (k : IsMatch m d) where
  base_linux_name_injective : base_linux_name c ≡ base_linux_name d → n ≡ m
  unfolding base_linux_name
  base_linux_name_injective e =
      let (same_type, e1) =
        append-cancel is_small_letter c.if_type d.if_type _ _ j.letters k.letters
          (digits-Stops c.fpc _ j.fpc_digits j.has_fpc)
          (digits-Stops d.fpc _ k.fpc_digits k.has_fpc) e in
      let (same_fpc, e2) =
        append-cancel is_digit c.fpc d.fpc _ _ j.fpc_digits k.fpc_digits refl refl e1 in
      let (same_pic, e3) =
        append-cancel is_digit c.pic d.pic _ _ j.pic_digits k.pic_digits refl refl (tail_eq e2) in
      let (same_port, e4) =
        append-cancel is_digit c.port d.port _ _ j.port_digits k.port_digits (suffixed-Stops c.vlan)
          (suffixed-Stops d.vlan) (tail_eq e3) in
      let same_vlan = suffixed_injective c.vlan d.vlan e4 in
      j.whole ∙ (cc (same_type, same_fpc, same_pic, same_port, same_vlan) ∙ sym k.whole)

convert_short :
    (names : Names) (n : Bytes) (c : JunosInterfaceComponents)
    → IsMatch n c
    → names.find n ≡ some c
    → leb (length (base_linux_name c)) 15 ≡ true
    → convert_junos_to_linux_name names n ≡ ok (base_linux_name c)
unfolding convert_junos_to_linux_name convert_matched
convert_short names [] c j f short =
    let rest = c.fpc ++ b'/' ∷ (c.pic ++ b'/' ∷ (c.port ++ suffixed b'.' c.vlan)) in
    absurd (omega (arith, ap length j.whole, length-append c.if_type (b'-' ∷ rest)))
convert_short names (b ∷ bs) c j f short = ground (arith, f, short)

-- Two different Junos interface names, as the regular expression matches them, whose plain conversions
-- fit into 15 bytes become different Linux names.
pub convert_junos_to_linux_name_injective :
    (names : Names) (n m : Bytes) (c d : JunosInterfaceComponents)
    → Finds names
    → names.find n ≡ some c
    → names.find m ≡ some d
    → leb (length (base_linux_name c)) 15 ≡ true
    → leb (length (base_linux_name d)) 15 ≡ true
    → n ≢ m
    → convert_junos_to_linux_name names n ≢ convert_junos_to_linux_name names m
convert_junos_to_linux_name_injective names n m c d law f g short short' other e =
    let j = law n c f in
    let k = law m d g in
    other (
      base_linux_name_injective n m c d j k
        (cc (convert_short names n c j f short, convert_short names m d k g short', e)))
