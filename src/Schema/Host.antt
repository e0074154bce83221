-- ===== src/Schema/Host.antt =====
-- What the memories take from Python and from SQLite, which is no code of the repository, with the
-- behaviour that proofs rely on.
use agent_memory_living_memo.Prelude.{ℕ, Bool, false, Option, some, List, Text, ◌≡◌, is_empty}
use agent_memory_living_memo.Prelude.Strings.{strip}
use agent_memory_living_memo.Schema.{Material, IdMaterial}
use agent_memory_living_memo.Schema.Values.{Json}

pub data Error : Type 0 where
  value_error : Error
  type_error : Error
  key_error : Error
  file_not_found : Error

pub record Host (N : Type 0) : Type 0 where
  -- `str.lower`
  pub lower : Text → Text
  -- whether the regular expression `\w` matches a character
  pub is_word : ℕ → Bool
  -- UTF-8
  pub encode : Text → List ℕ
  pub decode : List ℕ → Option Text
  -- `json.dumps` with sorted keys, and `json.loads`
  pub dumps : Json N → Text
  pub loads : Text → Option (Json N)
  -- `str` of a number
  pub str_number : N → Text
  -- the SHA-256 hex digest of bytes, and those of the JSON texts of two dictionaries
  pub sha256 : List ℕ → Text
  pub content_digest : Material N → Text
  pub id_digest : IdMaterial N → Text

pub record IsHost {N : Type 0} (h : Host N) : Type 0 where
  pub lower_lower : (s : Text) → h.lower (h.lower s) ≡ h.lower s
  pub strip-lower : (s : Text) → strip (h.lower (strip s)) ≡ h.lower (strip s)
  pub digest_filled : (m : Material N) → is_empty (h.content_digest m) ≡ false
  pub decode-encode : (s : Text) → h.decode (h.encode s) ≡ some s
