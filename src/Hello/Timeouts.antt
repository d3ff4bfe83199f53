-- ===== src/Hello/Timeouts.antt =====
-- src/hello-protocol.cpp: a neighbor that never answers.
use ndnproject.Prelude.{
  ==_refl, Double, Eq, NdnName, ap, arith, if◌then◌else◌, leb, refl, some, suc, sym, zero, ℕ, ◌<◌,
  ◌^◌, ◌∙◌, ◌≡◌, ◌≤◌,
}
use ndnproject.Adjacency.{Adjacent, active, inactive, find_adjacent}
use ndnproject.Hello.{process_interest_timed_out, info_component}
use ndnproject.Hello.Neighbors.{missed, find-timed_out, timed_out-conf}
use ndnproject.Nlsr.{Nlsr}

module _ {Name D : Type 0} ⦃e : Eq Name⦄ ⦃n : NdnName Name⦄ ⦃d : Double D⦄ where
  -- So many hello interests to a neighbor time out in turn.
  unfoldable pub timeouts : ℕ → Nlsr Name D → Name → Nlsr Name D
  timeouts zero s neighbor = s
  timeouts (suc k) s neighbor =
      process_interest_timed_out (timeouts k s neighbor) info_component neighbor

  -- The neighbor after that many.
  unfoldable pub silent : ℕ → ℕ → Adjacent Name D → Adjacent Name D
  silent retries k a = record a {
    interest_timed_out_no = k;
    status = if leb retries k then inactive else a.status;
  }

  missed-silent :
      (retries k : ℕ) (a : Adjacent Name D)
      → k < retries
      → retries < 2 ^ 32
      → a.status ≡ active
      → missed retries (silent retries k a) ≡ silent retries (suc k) a
  unfolding missed silent
  missed-silent r k a below bound up = ground arith

  silent-zero :
      (retries : ℕ) (a : Adjacent Name D)
      → 0 < retries
      → a.interest_timed_out_no ≡ 0
      → silent retries 0 a ≡ a
  unfolding silent
  silent-zero r a positive zeroed = ground arith

  module _ (s : Nlsr Name D) (neighbor : Name) (a : Adjacent Name D)
      (hit : find_adjacent neighbor s.adjacency_list ≡ some a) (up : a.status ≡ active)
      (zeroed : a.interest_timed_out_no ≡ 0) (positive : 0 < s.conf.interest_retry_number)
      (bound : s.conf.interest_retry_number < 2 ^ 32) where
    timeouts-silent :
        (k : ℕ)
        → k ≤ s.conf.interest_retry_number
        → ((timeouts k s neighbor).conf ≡ s.conf)
          × (find_adjacent neighbor (timeouts k s neighbor).adjacency_list
              ≡ some (silent s.conf.interest_retry_number k a))
    unfolding timeouts
    timeouts-silent zero below =
        (refl, hit ∙ ap some (sym (silent-zero s.conf.interest_retry_number a positive zeroed)))
    timeouts-silent (suc k) below =
        let r = s.conf.interest_retry_number in
        let before = timeouts k s neighbor in
        let (same, there) = timeouts-silent k (omega arith) in
        (
          timed_out-conf before neighbor (silent r k a) there ∙ same,
          find-timed_out before neighbor (silent r k a) there neighbor
              ∙ rw (==_refl neighbor, same, missed-silent r k a (omega arith) bound up) refl,
        )

    -- A neighbor that is active with no interest timed out, and then never answers, is inactive
    -- exactly when as many of its interests have timed out as the retry number, which is positive
    -- and below 2 ^ 32; up to then each timeout is counted.
    pub find-timeouts :
        (k : ℕ)
        → k ≤ s.conf.interest_retry_number
        → find_adjacent neighbor (timeouts k s neighbor).adjacency_list
          ≡ some (silent s.conf.interest_retry_number k a)
    find-timeouts k below = (timeouts-silent k below).1
