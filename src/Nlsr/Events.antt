-- ===== src/Nlsr/Events.antt =====
-- src/nlsr.cpp: `onFaceEventNotification`, of a face that was destroyed.
use ndnproject.Prelude.{Double, Eq, NdnName, if◌then◌else◌, nat_eq, none, some, str_eq, ℕ}
use ndnproject.Adjacency.{Adjacent, inactive, is_active, find_adjacent_by_face_id}
use ndnproject.Keyed.{modify}
use ndnproject.Lsdb.Adjacencies.{schedule_adj_lsa_build}
use ndnproject.Nlsr.{Nlsr}

abbrev pub adjacent_face_id : {Name D : Type 0} → Adjacent Name D → ℕ
adjacent_face_id a = a.face_id

module _ {Name D : Type 0} ⦃e : Eq Name⦄ ⦃n : NdnName Name⦄ ⦃d : Double D⦄ where
  -- The neighbor whose face was destroyed, after the event.
  abbrev pub without_face : ℕ → Adjacent Name D → Adjacent Name D
  without_face retries a =
      if is_active a.status
      then record a { face_id = 0; status = inactive; interest_timed_out_no = retries }
      else record a { face_id = 0 }

  unfoldable pub on_face_destroyed : Nlsr Name D → ℕ → Nlsr Name D
  unfolding schedule_adj_lsa_build find_adjacent_by_face_id
  on_face_destroyed s face_id = elim (find_adjacent_by_face_id face_id s.adjacency_list) [
    | none ↦ s
    | some a ↦
        let t : Nlsr Name D = record s {
          adjacency_list =
              modify adjacent_face_id face_id (without_face s.conf.interest_retry_number)
                s.adjacency_list;
        } in
        if is_active a.status then schedule_adj_lsa_build t else t
  ]
