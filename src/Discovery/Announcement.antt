-- ===== src/Discovery/Announcement.antt =====
-- dtnd7-go/pkg/discovery/announcement.go.
use ma_sinafadavi_iran.Prelude.{
  ℕ, zero, suc, ◌^◌, ◌<◌, ◌≤◌, ◌≡◌, sym, subst, true, false, List, [], ◌∷◌, ◌++◌, length, leb,
  le→leb, All, if◌then◌else◌, append_assoc, append-nil, arith,
}
use ma_sinafadavi_iran.Bpv7.Env.{Env}
use ma_sinafadavi_iran.Bpv7.Outcome.{
  Outcome, ok, panic, wrap, wrap-eq-ok, unknown_cla_type, ◌>>=◌, ◌>>◌, >>=-eq-ok,
}
use ma_sinafadavi_iran.Bpv7.Endpoint.{EndpointId, marshal_eid}
use ma_sinafadavi_iran.Bpv7.Decode.{Reads, Reader}
use ma_sinafadavi_iran.Bpv7.Decode.Laws.{Inverse}
use ma_sinafadavi_iran.Bpv7.Decode.Endpoint.{
  unmarshal_eid, unmarshal_eid-marshal_eid, IsDecodable, expect_length,
}
use ma_sinafadavi_iran.Bpv7.Decode.Fields.{require}
use ma_sinafadavi_iran.Cla.Types.{is_valid_type}

pub record Announcement : Type 0 where
  pub cla_type : ℕ
  pub endpoint : EndpointId
  pub port : ℕ

announcement_bytes : Env → Announcement → List ℕ → List ℕ
announcement_bytes env a endpoint =
    env.write_array_length 3 ++ (env.write_uint a.cla_type ++ (endpoint ++ env.write_uint a.port))

-- Announcement.MarshalCbor
marshal_announcement : Env → Announcement → Outcome (List ℕ)
unfolding announcement_bytes
marshal_announcement env a = do
  endpoint ← wrap (marshal_eid env a.endpoint)
  ok (announcement_bytes env a endpoint)

-- Announcement.UnmarshalCbor; a uint is of 64 bits.
unmarshal_announcement : Reader → Reads Announcement
unmarshal_announcement reader input = do
  (_, r) ← expect_length reader 3 input
  (t, r) ← reader.read_uint r
  require (is_valid_type t) (unknown_cla_type t)
  (endpoint, r) ← wrap (unmarshal_eid reader r)
  (port, r) ← reader.read_uint r
  ok (record { cla_type = t; endpoint = endpoint; port = port }, r)

marshal_each : Env → List Announcement → Outcome (List ℕ)
unfolding marshal_announcement
marshal_each env [] = ok []
marshal_each env (a ∷ others) = do
  bytes ← wrap (marshal_announcement env a)
  rest ← marshal_each env others
  ok (bytes ++ rest)

-- MarshalAnnouncements
unfoldable pub marshal_announcements : Env → List Announcement → Outcome (List ℕ)
unfolding marshal_each
marshal_announcements env announcements = do
  bytes ← marshal_each env announcements
  ok (env.write_array_length (length announcements) ++ bytes)

read_each : Reader → ℕ → Reads (List Announcement)
unfolding unmarshal_announcement
read_each reader zero input = ok ([], input)
read_each reader (suc n) input = do
  (a, r) ← wrap (unmarshal_announcement reader input)
  (rest, r) ← read_each reader n r
  ok (a ∷ rest, r)

-- make([]Announcement, l), which panics on a length that is too large, and the loop behind it.
make_announcements : Reader → ℕ → Reads (List Announcement)
unfolding read_each
make_announcements reader l input =
    if leb l reader.max_announcements then read_each reader l input else panic

-- UnmarshalAnnouncements
unfoldable pub unmarshal_announcements : Reader → List ℕ → Outcome (List Announcement)
unfolding make_announcements
unmarshal_announcements reader input = do
  (l, r) ← reader.read_array_length input
  (announcements, _) ← make_announcements reader l r
  ok announcements

-- An announcement of a valid type, its numbers of 64 bits.
abbrev pub IsDecodableAnnouncement : Reader → Announcement → Type 0
IsDecodableAnnouncement reader a =
    (a.cla_type < 2 ^ 64)
    × (is_valid_type a.cla_type ≡ true)
    × IsDecodable reader a.endpoint
    × (a.port < 2 ^ 64)

module _ (env : Env) (reader : Reader) (inverse : Inverse env reader) where
  unmarshal_announcement-bytes :
      (a : Announcement) (endpoint : List ℕ)
      → IsDecodableAnnouncement reader a
      → marshal_eid env a.endpoint ≡ ok endpoint
      → (rest : List ℕ)
      → unmarshal_announcement reader (announcement_bytes env a endpoint ++ rest) ≡ ok (a, rest)
  unfolding unmarshal_announcement announcement_bytes expect_length require
  unmarshal_announcement-bytes a endpoint (h, valid, d, k) m rest = simp (
    append_assoc,
    inverse.read_array_length-write_array_length 3 (omega arith),
    inverse.read_uint-write_uint a.cla_type h,
    valid,
    unmarshal_eid-marshal_eid env reader inverse a.endpoint endpoint d m,
    inverse.read_uint-write_uint a.port k,
  )

  unmarshal_announcement-marshal_announcement :
      (a : Announcement) (bytes : List ℕ)
      → IsDecodableAnnouncement reader a
      → marshal_announcement env a ≡ ok bytes
      → (rest : List ℕ) → unmarshal_announcement reader (bytes ++ rest) ≡ ok (a, rest)
  unfolding marshal_announcement
  unmarshal_announcement-marshal_announcement a bytes d m rest =
      let (endpoint, h, k) = >>=-eq-ok (wrap (marshal_eid env a.endpoint)) _ m in
      let same : announcement_bytes env a endpoint ≡ bytes = cc in
      subst (λ x. unmarshal_announcement reader (x ++ rest) ≡ ok (a, rest)) same
        (unmarshal_announcement-bytes a endpoint d (wrap-eq-ok (marshal_eid env a.endpoint) h) rest)

  read_each-marshal_each :
      (announcements : List Announcement) (bytes : List ℕ)
      → All (IsDecodableAnnouncement reader) announcements
      → marshal_each env announcements ≡ ok bytes
      → (rest : List ℕ)
      → read_each reader (length announcements) (bytes ++ rest) ≡ ok (announcements, rest)
  unfolding read_each marshal_each
  read_each-marshal_each [] bytes d m rest =
      let none_written : [] ≡ bytes = cc in simp (sym none_written)
  read_each-marshal_each (a ∷ others) bytes (d, ds) m rest =
      let (first, h, k) = >>=-eq-ok (wrap (marshal_announcement env a)) _ m in
      let (behind, i, l) = >>=-eq-ok (marshal_each env others) _ k in
      let same : first ++ behind ≡ bytes = cc in
      simp (
        sym same,
        append_assoc,
        unmarshal_announcement-marshal_announcement a first d
            (wrap-eq-ok (marshal_announcement env a) h),
        read_each-marshal_each others behind ds i,
      )

  -- Announcements of valid types, with numbers of 64 bits and not more than Go can make a slice of, come
  -- back from their bytes.
  pub unmarshal_announcements-marshal_announcements :
      (announcements : List Announcement) (bytes : List ℕ)
      → All (IsDecodableAnnouncement reader) announcements
      → length announcements < 2 ^ 64
      → length announcements ≤ reader.max_announcements
      → marshal_announcements env announcements ≡ ok bytes
      → unmarshal_announcements reader bytes ≡ ok announcements
  unfolding unmarshal_announcements marshal_announcements make_announcements
  unmarshal_announcements-marshal_announcements announcements bytes d h k m =
      let (body, i, l) = >>=-eq-ok (marshal_each env announcements) _ m in
      let same : env.write_array_length (length announcements) ++ body ≡ bytes = cc in
      let back = read_each-marshal_each announcements body d i [] in
      simp (
        sym same,
        inverse.read_array_length-write_array_length (length announcements) h,
        le→leb (length announcements) reader.max_announcements k,
        rw append-nil at back,
      )

  -- The head of an array that is longer than Go can make a slice makes the reader of announcements panic.
  pub unmarshal_announcements_panics :
      (l : ℕ) (rest : List ℕ)
      → reader.max_announcements < l
      → l < 2 ^ 64
      → unmarshal_announcements reader (env.write_array_length l ++ rest) ≡ panic
  unfolding unmarshal_announcements make_announcements
  unmarshal_announcements_panics l rest h k =
      let large : leb l reader.max_announcements ≡ false = ground arith in
      simp (inverse.read_array_length-write_array_length l k, large)
