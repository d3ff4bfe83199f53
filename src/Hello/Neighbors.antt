-- ===== src/Hello/Neighbors.antt =====
-- src/hello-protocol.cpp: what becomes of a neighbor that answers, and of one that does not.
use ndnproject.Prelude.{
  ==_refl, Bool-cases, Double, Eq, NdnName, arith, if◌then◌else◌, inl, inr, ltb, nat_eq, not, refl,
  some, str_eq, ℕ, ◌%◌, ◌&&◌, ◌+◌, ◌==◌, ◌^◌, ◌≡◌,
}
use ndnproject.Adjacency.{
  Adjacent, AdjacencyList, Status, active, inactive, is_active, find_adjacent,
  increment_timed_out_interest_count, set_timed_out_interest_count, get_timed_out_interest_count,
  get_status_of_neighbor, set_status_of_neighbor, adjacent_name,
}
use ndnproject.Hello.{
  process_interest_timed_out, after_timeout, timed_out_count, on_content_validated, info_component,
  express_interest, same_status,
}
use ndnproject.Keyed.{modify}
use ndnproject.Keyed.Laws.{find-modify}
use ndnproject.Lsdb.Adjacencies.{schedule_adj_lsa_build}
use ndnproject.Nlsr.{Nlsr, schedule}

module _ {Name D : Type 0} ⦃e : Eq Name⦄ ⦃n : NdnName Name⦄ ⦃d : Double D⦄ where
  -- The neighbor after one more interest of its timed out.
  unfoldable pub missed : ℕ → Adjacent Name D → Adjacent Name D
  missed retries a =
      let count = (a.interest_timed_out_no + 1) % 2 ^ 32 in
      record a {
        interest_timed_out_no = count;
        status =
            if not (ltb count retries) && (is_active a.status && count == retries)
            then inactive
            else a.status;
      }

  schedule-adjacencies :
      (s : Nlsr Name D) → (schedule_adj_lsa_build s).adjacency_list ≡ s.adjacency_list
  unfolding schedule_adj_lsa_build schedule
  schedule-adjacencies s = elim (Bool-cases s.is_build_adj_lsa_scheduled) [
    | inl set ↦ rw (set, schedule_adj_lsa_build) refl
    | inr unset ↦ rw (unset, schedule_adj_lsa_build) refl
  ]

  after_timeout-adjacencies :
      (s : Nlsr Name D) (neighbor : Name) (status : Status) (count : ℕ)
      → (after_timeout s neighbor status count).adjacency_list ≡ (
          if not (ltb count s.conf.interest_retry_number)
            && (is_active status && count == s.conf.interest_retry_number)
          then set_status_of_neighbor s.adjacency_list neighbor inactive
          else s.adjacency_list)
  unfolding after_timeout express_interest
  after_timeout-adjacencies s neighbor status count =
      elim (Bool-cases (ltb count s.conf.interest_retry_number)) [
        | inl early ↦ rw (early, after_timeout) refl
        | inr late ↦ elim (Bool-cases (is_active status && count == s.conf.interest_retry_number)) [
          | inl dead ↦ rw (late, after_timeout, dead, schedule-adjacencies _) refl
          | inr other ↦ rw (late, after_timeout, other) refl
        ]
      ]

  -- The neighbor with one more timed out interest.
  abbrev counted : Adjacent Name D → Adjacent Name D
  counted x = record x { interest_timed_out_no = (x.interest_timed_out_no + 1) % 2 ^ 32 }

  find-counted :
      (l : AdjacencyList Name D) (neighbor : Name) (a : Adjacent Name D)
      → find_adjacent neighbor l ≡ some a
      → find_adjacent neighbor (increment_timed_out_interest_count l neighbor) ≡ some (counted a)
  unfolding find_adjacent increment_timed_out_interest_count
  find-counted l neighbor a hit =
      rw (find-modify adjacent_name counted (λ x. refl) neighbor neighbor l, ==_refl neighbor, hit)
        refl

  status-counted :
      (l : AdjacencyList Name D) (neighbor : Name) (a : Adjacent Name D)
      → find_adjacent neighbor l ≡ some a
      → get_status_of_neighbor (increment_timed_out_interest_count l neighbor) neighbor ≡ a.status
  unfolding get_status_of_neighbor
  status-counted l neighbor a hit = rw (find-counted l neighbor a hit, get_status_of_neighbor) refl

  count-counted :
      (l : AdjacencyList Name D) (neighbor : Name) (a : Adjacent Name D)
      → find_adjacent neighbor l ≡ some a
      → timed_out_count (increment_timed_out_interest_count l neighbor) neighbor
        ≡ (a.interest_timed_out_no + 1) % 2 ^ 32
  unfolding timed_out_count get_timed_out_interest_count
  count-counted l neighbor a hit =
      rw (find-counted l neighbor a hit, timed_out_count, get_timed_out_interest_count) refl

  timed_out-after :
      (s : Nlsr Name D) (neighbor : Name) (a : Adjacent Name D)
      → find_adjacent neighbor s.adjacency_list ≡ some a
      → process_interest_timed_out s info_component neighbor
        ≡ after_timeout
            (record s {
              adjacency_list = increment_timed_out_interest_count s.adjacency_list neighbor;
            })
            neighbor
            a.status
            ((a.interest_timed_out_no + 1) % 2 ^ 32)
  unfolding process_interest_timed_out
  timed_out-after s neighbor a hit =
      rw
        (
          ==_refl info_component,
          process_interest_timed_out,
          status-counted s.adjacency_list neighbor a hit,
          count-counted s.adjacency_list neighbor a hit,
        )
        refl

  -- The neighbor once it is found to be dead.
  abbrev died : Adjacent Name D → Adjacent Name D
  died x = record x { status = inactive }

  -- A hello interest to a neighbor in the list that times out is counted for it, and it becomes
  -- inactive when it was active and the count reaches the retry number; every other neighbor stays
  -- as it is.
  pub find-timed_out :
      (s : Nlsr Name D) (neighbor : Name) (a : Adjacent Name D)
      → find_adjacent neighbor s.adjacency_list ≡ some a
      → (other : Name)
      → find_adjacent other (process_interest_timed_out s info_component neighbor).adjacency_list
        ≡ (if other == neighbor
            then some (missed s.conf.interest_retry_number a)
            else find_adjacent other s.adjacency_list)
  unfolding missed set_status_of_neighbor find_adjacent increment_timed_out_interest_count
  find-timed_out s neighbor a hit other =
      let count = (a.interest_timed_out_no + 1) % 2 ^ 32 in
      let retries = s.conf.interest_retry_number in
      let l = s.adjacency_list in
      let seen = find-modify adjacent_name counted (λ x. refl) neighbor other l in
      elim (Bool-cases (not (ltb count retries) && (is_active a.status && count == retries))) [
        | inl dead ↦
            rw
              (
                timed_out-after s neighbor a hit,
                after_timeout-adjacencies _ neighbor a.status count,
                dead,
              )
              (ground (
                arith,
                seen,
                find-modify adjacent_name died (λ x. refl) neighbor other
                    (modify adjacent_name neighbor counted l),
                find-counted l neighbor a hit,
                e.beq_iff other neighbor,
              ))
        | inr alive ↦
            rw
              (
                timed_out-after s neighbor a hit,
                after_timeout-adjacencies _ neighbor a.status count,
                alive,
              )
              (ground (arith, seen, e.beq_iff other neighbor))
      ]

  -- The neighbor that answered.
  abbrev pub answered : Adjacent Name D → Adjacent Name D
  answered x = record x { status = active; interest_timed_out_no = 0 }

  -- A neighbor in the list whose hello data is validated is active, with no interest of its timed
  -- out; every other neighbor stays as it is.
  pub find-validated :
      (s : Nlsr Name D) (neighbor : Name) (a : Adjacent Name D)
      → find_adjacent neighbor s.adjacency_list ≡ some a
      → (other : Name)
      → find_adjacent other (on_content_validated s info_component neighbor).adjacency_list
        ≡ (if other == neighbor then some (answered a) else find_adjacent other s.adjacency_list)
  unfolding on_content_validated find_adjacent set_status_of_neighbor set_timed_out_interest_count
  find-validated s neighbor a hit other =
      let l = s.adjacency_list in
      let awake : Adjacent Name D → Adjacent Name D = λ x. record x { status = active } in
      let reset : Adjacent Name D → Adjacent Name D = λ x. record x { interest_timed_out_no = 0 } in
      let l' = modify adjacent_name neighbor awake l in
      let status_is = find-modify adjacent_name awake (λ x. refl) neighbor neighbor l in
      let status_at = find-modify adjacent_name awake (λ x. refl) neighbor other l in
      let count_at = find-modify adjacent_name reset (λ x. refl) neighbor other l' in
      let old = get_status_of_neighbor l neighbor in
      let new = get_status_of_neighbor (modify adjacent_name neighbor reset l') neighbor in
      elim (Bool-cases (same_status old new)) [
        | inl same ↦
            rw (==_refl info_component, on_content_validated, same)
              (ground
                (arith, status_is, status_at, count_at, e.beq_iff other neighbor, ==_refl neighbor))
        | inr differ ↦
            rw (==_refl info_component, on_content_validated, differ, schedule-adjacencies _)
              (ground
                (arith, status_is, status_at, count_at, e.beq_iff other neighbor, ==_refl neighbor))
      ]

  schedule-conf : (s : Nlsr Name D) → (schedule_adj_lsa_build s).conf ≡ s.conf
  unfolding schedule_adj_lsa_build schedule
  schedule-conf s = elim (Bool-cases s.is_build_adj_lsa_scheduled) [
    | inl set ↦ rw (set, schedule_adj_lsa_build) refl
    | inr unset ↦ rw (unset, schedule_adj_lsa_build) refl
  ]

  after_timeout-conf :
      (s : Nlsr Name D) (neighbor : Name) (status : Status) (count : ℕ)
      → (after_timeout s neighbor status count).conf ≡ s.conf
  unfolding after_timeout express_interest
  after_timeout-conf s neighbor status count =
      elim (Bool-cases (ltb count s.conf.interest_retry_number)) [
        | inl early ↦ rw (early, after_timeout) refl
        | inr late ↦ elim (Bool-cases (is_active status && count == s.conf.interest_retry_number)) [
          | inl dead ↦ rw (late, after_timeout, dead, schedule-conf _) refl
          | inr other ↦ rw (late, after_timeout, other) refl
        ]
      ]

  -- A timeout leaves the parameters alone.
  pub timed_out-conf :
      (s : Nlsr Name D) (neighbor : Name) (a : Adjacent Name D)
      → find_adjacent neighbor s.adjacency_list ≡ some a
      → (process_interest_timed_out s info_component neighbor).conf ≡ s.conf
  timed_out-conf s neighbor a hit = rw (timed_out-after s neighbor a hit, after_timeout-conf) refl
