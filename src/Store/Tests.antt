-- ===== src/Store/Tests.antt =====
-- A memory with a text above a small threshold, remembered and inspected.
use agent_memory_living_memo.Prelude.{
  ℕ, true, false, Option, none, some, List, [], ◌∷◌, ◌++◌, ◌∙◌, ◌==◌, Text_eq, All, map, take, Text,
  codes, text_eq, length, replicate, ◌≡◌, ◌≤◌, refl, ap, subst, sym,
}
use agent_memory_living_memo.Prelude.Dict
use agent_memory_living_memo.Prelude.Floats.{cents}
use agent_memory_living_memo.Prelude.Results.{done, raised}
use agent_memory_living_memo.Mobius.{MobiusIndex, AddressMaterial, MobiusAddress, address_for}
use agent_memory_living_memo.Schema.{ModalityRef, MemoryEnvelope, Content}
use agent_memory_living_memo.Schema.Content.{str}
use agent_memory_living_memo.Schema.Envelope.{from_dict, to_dict}
use agent_memory_living_memo.Schema.Host.Error.{value_error, file_not_found}
use agent_memory_living_memo.Schema.Modality.{content_bytes, modality_post_init}
use agent_memory_living_memo.Schema.Samples.{note, text_part, toy, toy-IsHost}
use agent_memory_living_memo.Schema.Seal.{IsSealed, from_dict-IsSealed}
use agent_memory_living_memo.Store.{TemporalStore, remember, inspect, address_of_memory}
use agent_memory_living_memo.Store.Blobs.{is_sha256_hex, blob_path, blob_reference, resolve_item}
use agent_memory_living_memo.Store.Safety.{IsPlainChar, blob_path_plain}
use agent_memory_living_memo.Store.Restore.{IsDigest, IsOwn, IsPlain, IsFaithful}
use agent_memory_living_memo.Store.Inspect.{inspect-remember}
use agent_memory_living_memo.Store.Search.{Sqlite, search_text, terms}
use agent_memory_living_memo.Store.Found.{IsAsked, IsStored, search_text-IsAsked}
use agent_memory_living_memo.Vault.Replay.{IsLogged, last_line, remember-IsLogged}

abbrev sha : Text
sha = replicate 64 97

abbrev tabs : Text
tabs = codes "use tabs"

abbrev part : ModalityRef ℕ
part = record text_part { sha256 = some sha; size_bytes = some 8 }

abbrev memory : MemoryEnvelope ℕ
memory = record note { modalities = part ∷ [] }

abbrev empty_store : TemporalStore ℕ
empty_store = record { memories = []; memory_fts = []; mobius_index = []; blobs = []; log = [] }

abbrev digest : AddressMaterial ℕ → List ℕ
digest m = replicate 32 3

abbrev grid : MobiusIndex
grid = record { u_size = 64; v_size = 32; w_size = 16 }

abbrev place : MobiusAddress
place = record { iu = 3; iv = 9; iw = 3; region = codes "decision" }

place_of_memory : address_for digest grid memory ≡ some place
unfolding address_for text_eq
place_of_memory = refl

memory_again : from_dict cents toy 0 (to_dict memory) ≡ done memory
unfolding from_dict to_dict text_eq
memory_again = refl

memory-IsSealed : IsSealed cents toy memory
memory-IsSealed = from_dict-IsSealed cents toy-IsHost 0 (to_dict memory) memory_again

abbrev Known : List ℕ → Type 0
Known raw = raw ≡ tabs

known-IsDigest : IsDigest toy Known
unfolding is_sha256_hex text_eq
known-IsDigest = record { form = λ raw k. refl; unique = λ a b p q e. p ∙ sym q }

part-IsOwn : IsOwn toy Known part (str tabs)
unfolding content_bytes Dict.get
part-IsOwn = record {
  readable = tt;
  known = refl;
  uri = refl;
  sha256 = refl;
  size_bytes = refl;
  metadata = refl;
}

same_content : {c d : Content ℕ} → Path (Option (Content ℕ)) (some c) (some d) → c ≡ d
same_content {c} {d} e = ap (λ (o : Option (Content ℕ)). elim o [ none ↦ c | some x ↦ x ]) e

part-IsPlain : IsPlain toy Known 4 part
unfolding modality_post_init blob_reference
part-IsPlain = record {
  complete = refl;
  reference = refl;
  no_bytes = refl;
  large = λ content e l. subst (IsOwn toy Known part) (same_content e) part-IsOwn;
}

moved_to_a_file :
    (remember cents toy 4 digest grid 0 memory true empty_store).0.blobs ≡ (sha, tabs) ∷ []
unfolding remember from_dict to_dict text_eq address_for
moved_to_a_file = refl

short_digest :
    (remember cents toy 4 (λ m. []) grid 0 memory true empty_store).1 ≡ raised value_error
unfolding remember from_dict to_dict text_eq address_for
short_digest = refl

traversal : blob_path (codes "../../etc/passwd") ≡ raised value_error
unfolding blob_path text_eq
traversal = refl

no_such_file :
    resolve_item toy [] (record part { content = none; uri = some (codes "blob://" ++ sha) })
    ≡ raised file_not_found
unfolding resolve_item text_eq
no_such_file = refl

synonyms :
    terms toy (codes "run now")
    ≡ codes "command" ∷ codes "commands" ∷ codes "current" ∷ codes "now" ∷ codes "run" ∷ []
unfolding terms text_eq
synonyms = refl

nothing-IsLogged : IsLogged empty_store
unfolding last_line Dict.get
nothing-IsLogged id = refl

inspect-remember_example :
    (s : TemporalStore ℕ) × (remember cents toy 4 digest grid 0 memory true empty_store
      ≡ (s, done memory.id))
    × (inspect cents toy 4 5 memory.id true s ≡ done memory)
    × (address_of_memory memory.id s ≡ done place)
    × ((stored : MemoryEnvelope ℕ) × (s.log ≡ stored ∷ [])
        × (Dict.get memory.id s.memories ≡ some stored)
        × (record stored { modalities = memory.modalities } ≡ memory))
    × ((id : Text)
        → (memory.id == id) ≡ false
        → Dict.get id s.memories ≡ Dict.get id empty_store.memories)
    × IsFaithful toy Known s.blobs
inspect-remember_example =
    inspect-remember cents toy-IsHost known-IsDigest 4 digest grid 0 5 memory empty_store
      memory-IsSealed refl (part-IsPlain, tt) tt place_of_memory

abbrev first_match : Sqlite
first_match = record {
  fts_available = true;
  fts_match = λ expression rows. some (map (λ row. row.0) rows);
  fts_like = λ pattern rows. none;
  scan = λ rows. rows;
}

blob_path_plain_example : (sha ≡ sha) × (97 ∷ 97 ∷ [] ≡ take 2 sha) × All IsPlainChar sha
unfolding blob_path text_eq
blob_path_plain_example = blob_path_plain sha refl

found_by_text :
    search_text cents toy first_match 0
      (codes "tabs")
      []
      (codes "style" ∷ [])
      3
      (remember cents toy 400 digest grid 0 memory true empty_store).0
    ≡ done (memory ∷ [])
unfolding search_text remember from_dict to_dict text_eq address_for
found_by_text = refl

search_text-IsAsked_example :
    All (IsAsked cents toy [] (codes "style" ∷ [])) (memory ∷ [])
    × All
        (IsStored cents toy 0 (remember cents toy 400 digest grid 0 memory true empty_store).0)
        (memory ∷ [])
    × (length (memory ∷ []) ≤ 3)
search_text-IsAsked_example =
    search_text-IsAsked cents toy first_match 0 (codes "tabs") [] (codes "style" ∷ []) 3
      (remember cents toy 400 digest grid 0 memory true empty_store).0 found_by_text

remember-IsLogged_example : IsLogged (remember cents toy 4 digest grid 0 memory true empty_store).0
remember-IsLogged_example =
    remember-IsLogged cents toy-IsHost known-IsDigest 4 digest grid 0 memory empty_store
      memory-IsSealed refl (part-IsPlain, tt) tt place_of_memory nothing-IsLogged
