-- ===== src/Tests/Fs.antt =====
-- The service fs of the client on small stores.
use blobio.Base.{
  ◌≡◌, ◌≢◌, refl, sym, inl, inr, Bool, true, false, not, ◌&&◌, none, some, [], ◌∷◌, ◌++◌, Bytes,
  codes, ◌==◌, All, bytes_eq, Bool-cases,
}
use blobio.FsSha
use blobio.FsSha.Disk.{lookup}
use blobio.FsSha.Paths.{make_path}
use blobio.Client.Digests.{bc160_digest, fs_path}
use blobio.Client.Fs.{
  ok, no, Host, standard_input, input_at, standard_output, output_at, resolve, fs_blob_path,
  fs_hard_link, fs_add_chat, copy_standard, link_output, get_at, fs_get, unlink_blob, take_got,
  fs_take, fs_put,
}
use blobio.Client.Fs.Paths.{bc160, IsPlain}
use blobio.Client.Fs.Stored.{fs_put-Touches, fs_put-get_request, Touches}
use blobio.Client.Fs.Taken.{fs_take-fs_put}
use blobio.Tests.FsRipe.{store, two_digest, tmp_path, tmp_path-IsApart}
use blobio.Tests.Wrap.{append_all, append_all-IsStrcat}

abbrev all_plain : Bytes → Bool
all_plain [] = true
all_plain (c ∷ cs) = not (c == b'/') && all_plain cs

all_plain-All : (cs : Bytes) → all_plain cs ≡ true → All (λ c. (c == b'/') ≡ false) cs
all_plain-All [] e = tt
all_plain-All (c ∷ cs) e = elim (Bool-cases (c == b'/')) [
  | inl slash ↦ absurd (cc (rw slash at e))
  | inr other ↦ (other, all_plain-All cs (rw other at e))
]

two_digest-IsPlain : IsPlain two_digest
two_digest-IsPlain = record { size = refl; no_slash = all_plain-All two_digest refl }

abbrev whole : Bytes → Bytes × Bool
whole file = (file, true)

abbrev empty_host : Host
empty_host = record {
  store = [];
  outside = (codes "in", codes "ab") ∷ [];
  output = [];
  chat_history = [];
}

apart : make_path store.root two_digest ≢ tmp_path
apart e = tmp_path-IsApart two_digest (sym e)

fs_put-get_request_example :
    let m =
      fs_put append_all bc160_digest whole true tmp_path
        (input_at (codes "in"))
        two_digest
        empty_host in
    (m.1 ≡ ok)
    × (FsSha.get_request store two_digest m.0.store ≡ some (codes "ab"))
    × ((q : Bytes)
        → q ≢ make_path store.root two_digest
        → q ≢ tmp_path
        → lookup q m.0.store ≡ lookup q [])
unfolding lookup FsSha.get_request bytes_eq
fs_put-get_request_example =
    fs_put-get_request append_all whole (λ file. refl) true append_all-IsStrcat bc160 store tmp_path
      (codes "ab") two_digest (input_at (codes "in")) empty_host refl two_digest-IsPlain apart refl
      refl (inl refl)

fs_put-Touches_example : Touches tmp_path (make_path store.root two_digest) [] (
    fs_put append_all bc160_digest
      (λ file. ([], false))
      true
      tmp_path
      (standard_input (codes "ab"))
      two_digest
      empty_host)
fs_put-Touches_example =
    fs_put-Touches append_all (λ file. ([], false)) true append_all-IsStrcat bc160 tmp_path
      (standard_input (codes "ab")) two_digest empty_host two_digest-IsPlain

fs_take-fs_put_example :
    let host =
      (fs_put append_all bc160_digest whole true tmp_path
        (standard_input (codes "ab"))
        two_digest
        empty_host).0 in
    let m = fs_take append_all bc160_digest whole true standard_output two_digest host in
    (m.1 ≡ ok)
    × (m.0.output ≡ host.output ++ codes "ab")
    × (FsSha.get_request store two_digest m.0.store ≡ none)
    × ((q : Bytes) → q ≢ tmp_path → lookup q m.0.store ≡ lookup q [])
unfolding lookup FsSha.get_request
fs_take-fs_put_example =
    fs_take-fs_put append_all whole (λ file. refl) true append_all-IsStrcat bc160 store tmp_path
      (codes "ab") two_digest (standard_input (codes "ab")) empty_host refl two_digest-IsPlain apart
      refl refl refl

-- A take of a blob that is there notes five times ok, for which `chat_history` has no room.
take_chat :
    (fs_take append_all bc160_digest whole true standard_output two_digest (record empty_host {
      store = (make_path store.root two_digest, codes "ab") ∷ [];
    })).0.chat_history
    ≡ codes "ok,ok,ok,ok,ok"
unfolding fs_take fs_get fs_blob_path fs_path get_at copy_standard take_got fs_add_chat unlink_blob
    resolve lookup bytes_eq make_path
take_chat = refl

-- A get to a path of a blob that is not there notes ok.
get_missing :
    fs_get append_all bc160_digest whole true (output_at (codes "out")) two_digest empty_host
    ≡ (record empty_host { chat_history = codes "ok" }, no)
unfolding fs_get fs_blob_path fs_path get_at link_output fs_hard_link fs_add_chat resolve lookup
get_missing = refl
