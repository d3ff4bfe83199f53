-- ===== src/FaceMap.antt =====
-- src/route/face-map.hpp: the face ids that NFD reported for face URIs. A face id is a uint32_t
-- here, and a uint64_t where NFD reports it.
use ndnproject.Prelude.{
  List, Str, [], arith, if◌then◌else◌, nat_eq, none, refl, some, str_beq_iff, str_eq, ℕ, ◌++◌, ◌==◌,
  ◌∷◌, ◌≡◌,
}
use ndnproject.Keyed.{find, modify}
use ndnproject.Keyed.Laws.{find-push, find-modify}

pub record FaceMapEntry : Type 0 where
  pub face_uri : Str
  pub face_id : ℕ

abbrev pub FaceMap : Type 0
FaceMap = List FaceMapEntry

abbrev pub entry_uri : FaceMapEntry → Str
entry_uri e = e.face_uri

unfoldable pub update : FaceMap → Str → ℕ → FaceMap
update t face_uri face_id = elim (find entry_uri face_uri t) [
  | none ↦ t ++ record { face_uri = face_uri; face_id = face_id } ∷ []
  | some _ ↦ modify entry_uri face_uri (λ x. record x { face_id = face_id }) t
]

-- 0 if the URI is not known.
unfoldable pub get_face_id : FaceMap → Str → ℕ
get_face_id t face_uri = elim (find entry_uri face_uri t) [ some x ↦ x.face_id | none ↦ 0 ]

-- The map answers with the latest id of each URI: an update changes the id of its URI alone.
pub get_face_id-update :
    (t : FaceMap) (uri : Str) (id : ℕ) (u : Str)
    → get_face_id (update t uri id) u ≡ (if u == uri then id else get_face_id t u)
unfolding get_face_id update
get_face_id-update t uri id u = ground (
  arith,
  str_beq_iff u uri,
  str_beq_iff uri u,
  find-push entry_uri u t (record { face_uri = uri; face_id = id }),
  find-modify entry_uri (λ x. record x { face_id = id }) (λ x. refl) uri u t,
)
