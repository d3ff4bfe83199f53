-- ===== src/Lsdb/Stored.antt =====
-- src/lsdb.cpp: what an installation does to a list of stored LSAs, of any of the three kinds, and
-- which operations leave the lists alone.
use ndnproject.Prelude.{
  Bool-cases, Double, Eq, List, NdnName, Option, [], arith, false, if◌then◌else◌, inl, inr, ltb,
  nat_eq, none, refl, some, str_eq, true, ℕ, ◌++◌, ◌==◌, ◌∙◌, ◌∷◌, ◌≡◌,
}
use ndnproject.Keyed.{find, modify}
use ndnproject.Keyed.Laws.{find-push, find-modify}
use ndnproject.Lsa.{NameLsa}
use ndnproject.Lsdb.{add_origins, remove_origins, is_foreign}
use ndnproject.Lsdb.Names.{add_lsa_names, tell_changes, names_to_add, names_to_remove}
use ndnproject.NamePrefixTable.{add_origin, remove_origin}
use ndnproject.NamePrefixTable.Frame.{SameLsdb, add_origin-SameLsdb, remove_origin-SameLsdb}
use ndnproject.Nlsr.{Nlsr, schedule_routing_table_calculation}

-- The newer of a stored sequence number, if there is one, and another.
unfoldable pub newer_of : Option ℕ → ℕ → ℕ
newer_of none seq_no = seq_no
newer_of (some stored) seq_no = if ltb stored seq_no then seq_no else stored

module _ {K A : Type 0} ⦃e : Eq K⦄ (key : A → K) (seq : A → ℕ) where
  -- The sequence number of what is stored under a key.
  unfoldable pub seq_no_of : List A → K → Option ℕ
  seq_no_of xs k = elim (find key k xs) [ none ↦ none | some x ↦ some (seq x) ]

  -- How a list comes from another by the installation of `a`.
  pub data IsInstallation (before : List A) (a : A) : List A → Type 0 where
    appended : find key (key a) before ≡ none → IsInstallation before a (before ++ a ∷ [])
    renewed :
        (chk : A)
        → find key (key a) before ≡ some chk
        → ltb (seq chk) (seq a) ≡ true
        → (f : A → A) → ((x : A) → key (f x) ≡ key x)
        → ((x : A) → seq (f x) ≡ seq a)
        → IsInstallation before a (modify key (key a) f before)
    kept :
        (chk : A)
        → find key (key a) before ≡ some chk
        → ltb (seq chk) (seq a) ≡ false
        → IsInstallation before a before

  pub seq_no_of-installation :
      {before : List A} {a : A} {after : List A}
      → IsInstallation before a after
      → (k : K)
      → seq_no_of after k
        ≡ (if key a == k then some (newer_of (seq_no_of before k) (seq a)) else seq_no_of before k)
  unfolding seq_no_of newer_of
  seq_no_of-installation {before} {a} (appended miss) k =
      ground (arith, find-push key k before a, e.beq_iff (key a) k)
  seq_no_of-installation {before} {a} (renewed chk hit newer f keeps sets) k = ground (
    arith,
    find-modify key f keeps (key a) k before,
    e.beq_iff (key a) k,
    e.beq_iff k (key a),
    sets chk,
  )
  seq_no_of-installation {before} {a} (kept chk hit older) k = ground (arith, e.beq_iff (key a) k)

module _ {Name D : Type 0} ⦃e : Eq Name⦄ ⦃n : NdnName Name⦄ ⦃d : Double D⦄ where
  pub add_origins-SameLsdb :
      (s : Nlsr Name D) (r : Name) (names : List Name) → SameLsdb s (add_origins s r names)
  unfolding add_origins
  add_origins-SameLsdb s r [] = (refl, refl)
  add_origins-SameLsdb s r (x ∷ names) = elim (Bool-cases (x == s.conf.router_prefix)) [
    | inl own ↦ rw (own, add_origins) (add_origins-SameLsdb s r names)
    | inr other ↦
        let (l, c) = add_origins-SameLsdb (add_origin s x r) r names in
        let (l', c') = add_origin-SameLsdb s x r in rw (other, add_origins) (l ∙ l', c ∙ c')
  ]

  pub remove_origins-SameLsdb :
      (s : Nlsr Name D) (r : Name) (names : List Name) → SameLsdb s (remove_origins s r names)
  unfolding remove_origins
  remove_origins-SameLsdb s r [] = (refl, refl)
  remove_origins-SameLsdb s r (x ∷ names) = elim (Bool-cases (x == s.conf.router_prefix)) [
    | inl own ↦ rw (own, remove_origins) (remove_origins-SameLsdb s r names)
    | inr other ↦
        let (l, c) = remove_origins-SameLsdb (remove_origin s x r) r names in
        let (l', c') = remove_origin-SameLsdb s x r in rw (other, remove_origins) (l ∙ l', c ∙ c')
  ]

  pub add_lsa_names-SameLsdb : (s : Nlsr Name D) (l : NameLsa Name) → SameLsdb s (add_lsa_names s l)
  unfolding add_lsa_names
  add_lsa_names-SameLsdb s l = elim (Bool-cases (is_foreign s l.orig_router)) [
    | inl foreign ↦
        let t = add_origin s l.orig_router l.orig_router in
        let (a, b) = add_origins-SameLsdb t l.orig_router l.npl in
        let (a', b') = add_origin-SameLsdb s l.orig_router l.orig_router in
        rw foreign (a ∙ a', b ∙ b')
    | inr own ↦ rw own (refl, refl)
  ]

  pub tell_changes-SameLsdb :
      (s : Nlsr Name D) (r : Name) (stored newer : List Name)
      → SameLsdb s (tell_changes s r stored newer)
  unfolding tell_changes
  tell_changes-SameLsdb s r stored newer = elim (Bool-cases (is_foreign s r)) [
    | inl foreign ↦
        let t = add_origins s r (names_to_add stored newer) in
        let (a, b) = remove_origins-SameLsdb t r (names_to_remove stored newer) in
        let (a', b') = add_origins-SameLsdb s r (names_to_add stored newer) in
        rw foreign (a ∙ a', b ∙ b')
    | inr own ↦ rw own (refl, refl)
  ]

  pub calculation-SameLsdb : (s : Nlsr Name D) → SameLsdb s (schedule_routing_table_calculation s)
  unfolding schedule_routing_table_calculation
  calculation-SameLsdb s = elim (Bool-cases s.is_route_calculation_scheduled) [
    | inl set ↦ rw (set, schedule_routing_table_calculation) (refl, refl)
    | inr unset ↦ rw (unset, schedule_routing_table_calculation) (refl, refl)
  ]
