-- ===== src/Vpp/Naming/Tests.antt =====
-- The names of the comment in pkg/vpp/lcp_naming.go.
use arca_router.Prelude.{
  true, false, [], Option, none, some, ◌≡◌, ◌≢◌, refl, sym, subst, if◌then◌else◌, if-intro, codes,
  bytes_eq, bytes_eq_iff, Bytes,
}
use arca_router.Vpp.Naming.{
  JunosInterfaceComponents, Names, base_linux_name, convert_junos_to_linux_name,
}
use arca_router.Vpp.Naming.Bounds.{HashLaws, Fits, convert_junos_to_linux_name-Fits}
use arca_router.Vpp.Naming.Unique.{IsMatch, Finds, convert_junos_to_linux_name_injective}

abbrev first : Bytes
first = codes "ge-1/11/1"

abbrev second : Bytes
second = codes "ge-11/1/1"

abbrev parts : Bytes → Bytes → JunosInterfaceComponents
parts fpc pic = record { if_type = codes "ge"; fpc = fpc; pic = pic; port = codes "1"; vlan = [] }

-- A matcher of two names, and a hash of 43 equal letters.
abbrev two_names : Names
unfolding bytes_eq
two_names = record {
  find = λ n.
      if bytes_eq n first
      then some (parts (codes "1") (codes "11"))
      else if bytes_eq n second
      then some (parts (codes "11") (codes "1"))
      else none;
  hash = λ n. codes "aaaaaaaaaaaaaaaaaaaaaaaaaaaaaaaaaaaaaaaaaaa";
  to_lower = λ t. t;
}

first-IsMatch : IsMatch first (parts (codes "1") (codes "11"))
first-IsMatch = record {
  letters = (refl, (refl, tt));
  fpc_digits = (refl, tt);
  pic_digits = (refl, (refl, tt));
  port_digits = (refl, tt);
  vlan_digits = tt;
  has_fpc = refl;
  whole = refl;
}

second-IsMatch : IsMatch second (parts (codes "11") (codes "1"))
second-IsMatch = record {
  letters = (refl, (refl, tt));
  fpc_digits = (refl, (refl, tt));
  pic_digits = (refl, tt);
  port_digits = (refl, tt);
  vlan_digits = tt;
  has_fpc = refl;
  whole = refl;
}

two_names-Finds : Finds two_names
unfolding two_names
two_names-Finds n c =
    let P = λ (o : Option JunosInterfaceComponents). o ≡ some c → IsMatch n c in
    if-intro P (bytes_eq n first)
      (λ h e.
        let same : n ≡ first = (bytes_eq_iff n first).0 h in
        let found : parts (codes "1") (codes "11") ≡ c = cc e in
        subst (IsMatch n) found
          (subst (λ x. IsMatch x (parts (codes "1") (codes "11"))) (sym same) first-IsMatch))
      (λ _.
        if-intro P (bytes_eq n second)
          (λ h e.
            let same : n ≡ second = (bytes_eq_iff n second).0 h in
            let found : parts (codes "11") (codes "1") ≡ c = cc e in
            subst (IsMatch n) found
              (subst (λ x. IsMatch x (parts (codes "11") (codes "1"))) (sym same) second-IsMatch))
          (λ _ e. cc))

first_ne_second : first ≢ second
unfolding bytes_eq
first_ne_second e = let same : false ≡ true = (bytes_eq_iff first second).1 e in absurd cc

convert_junos_to_linux_name_injective_example :
    convert_junos_to_linux_name two_names first ≢ convert_junos_to_linux_name two_names second
unfolding two_names base_linux_name
convert_junos_to_linux_name_injective_example =
    convert_junos_to_linux_name_injective two_names first second (parts (codes "1") (codes "11"))
      (parts (codes "11") (codes "1")) two_names-Finds refl refl refl refl first_ne_second

two_names-HashLaws : HashLaws two_names
unfolding two_names
two_names-HashLaws = record {
  hash_length = λ n. refl;
  hash_ascii = λ n. refl;
  lower_length = λ t h. refl;
}

convert_junos_to_linux_name-Fits_example : Fits (convert_junos_to_linux_name two_names first)
unfolding two_names
convert_junos_to_linux_name-Fits_example =
    convert_junos_to_linux_name-Fits two_names two_names-HashLaws b'g' (codes "e-1/11/1")
      (parts (codes "1") (codes "11")) refl
