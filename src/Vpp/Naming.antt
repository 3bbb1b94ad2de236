-- ===== src/Vpp/Naming.antt =====
-- pkg/vpp/lcp_naming.go. The regular expression, the base64 text of the SHA-256 hash and
-- `strings.ToLower` are arguments; a name is a list of bytes.
pub mod Bounds
pub mod Unique
mod Tests
use arca_router.Prelude.{
  ℕ, ◌+◌, ◌-◌, Bool, true, false, ◌&&◌, List, [], ◌∷◌, ◌++◌, Option, none, some, Result, ok, err,
  leb, ltb, if◌then◌else◌, length, take, Bytes,
}

abbrev pub max_linux_if_name_len : ℕ
max_linux_if_name_len = 15

abbrev pub hash_suffix_len : ℕ
hash_suffix_len = 5

-- `JunosInterfaceComponents`: the groups of the regular expression, the last one empty where it did
-- not match.
pub record JunosInterfaceComponents : Type 0 where
  pub if_type : Bytes
  pub fpc : Bytes
  pub pic : Bytes
  pub port : Bytes
  pub vlan : Bytes

pub data NameError : Type 0 where
  empty_name invalid_format too_long : NameError

-- `v%s` behind the name, where there is a VLAN.
abbrev pub suffixed : ℕ → Bytes → Bytes
suffixed mark [] = []
suffixed mark (c ∷ vlan) = mark ∷ c ∷ vlan

-- `%s%s-%s-%s`, with the VLAN.
unfoldable pub base_linux_name : JunosInterfaceComponents → Bytes
base_linux_name c =
    c.if_type ++ (c.fpc ++ b'-' ∷ (c.pic ++ b'-' ∷ (c.port ++ suffixed b'v' c.vlan)))

-- What the package regexp finds, the encoded hash of a name, and the lower case of a text.
pub record Names : Type 0 where
  pub find : Bytes → Option JunosInterfaceComponents
  pub hash : Bytes → Bytes
  pub to_lower : Bytes → Bytes

module _ (names : Names) where
  abbrev pub hash_suffix : Bytes → Bytes
  hash_suffix junos_name = names.to_lower (take hash_suffix_len (names.hash junos_name))

  unfoldable pub generate_hashed_name : Bytes → Bytes → Result NameError Bytes
  generate_hashed_name junos_name prefix =
      let max_prefix_len = max_linux_if_name_len - hash_suffix_len in
      let kept =
        if ltb max_prefix_len (length prefix) then take max_prefix_len prefix else prefix in
      let linux_name = kept ++ hash_suffix junos_name in
      if ltb max_linux_if_name_len (length linux_name) then err too_long else ok linux_name

  unfoldable pub convert_matched : Bytes → JunosInterfaceComponents → Result NameError Bytes
  convert_matched junos_name c =
      if leb (length (base_linux_name c)) max_linux_if_name_len
      then ok (base_linux_name c)
      else generate_hashed_name junos_name c.if_type

  unfoldable pub convert_junos_to_linux_name : Bytes → Result NameError Bytes
  convert_junos_to_linux_name [] = err empty_name
  convert_junos_to_linux_name (b ∷ bs) = elim (names.find (b ∷ bs)) [
    | none ↦ err invalid_format
    | some c ↦ convert_matched (b ∷ bs) c
  ]
