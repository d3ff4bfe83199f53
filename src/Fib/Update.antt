-- ===== src/Fib/Update.antt =====
-- What `update` does to the table of the FIB, on each of its branches.
use ndnproject.Prelude.{
  ==_refl, Bool-cases, Double, Eq, NdnName, Option, Option-cases, [], ap, arith, if◌then◌else◌, inl,
  inr, length, length-ne_zero, length-zero_iff, nat_eq, none, refl, some, str_eq, suc, ℕ, ◌%◌, ◌++◌,
  ◌+◌, ◌==◌, ◌^◌, ◌∷◌, ◌≡◌, ◌≢◌,
}
use ndnproject.Adjacency.{AdjacencyList}
use ndnproject.Keyed.{find, modify}
use ndnproject.Keyed.Laws.{find-push, find-modify, Distinct-push, Distinct-modify}
use ndnproject.Keyed.Members.{All-modify, All-push, All-found}
use ndnproject.NextHop.{NexthopList}
use ndnproject.Fib.Hops.{register_hops-SameBut, remove_old_hops-SameBut}
use ndnproject.Fib.Kept.{
  HasFacesOf, filled_hops, kept_hops, kept_hops-HasFacesOf, new_hops-HasFacesOf,
  HasFacesOf-nonempty,
}
use ndnproject.Fib.Table.{IsInstalled, IsValid, find-remove, remove-IsValid}
use ndnproject.Fib.{
  Fib, FibEntry, fib_name, remove, update, update_to, hops_to_install, register_hops,
  remove_old_hops, install_new, install_existing,
}

module _ {Name D : Type 0} ⦃e : Eq Name⦄ ⦃n : NdnName Name⦄ ⦃d : Double D⦄ where
  -- What `update` leaves under its name: no entry if there is nothing to install, and otherwise
  -- an entry with the faces to be installed and no other.
  abbrev pub Installs : NexthopList D → Option (FibEntry Name D) → Type 0
  Installs hops none = hops ≡ []
  Installs hops (some entry) = (hops ≢ []) × HasFacesOf hops entry.nexthop_list

  -- A table with the entry of `name` made anew, with the hops `l`.
  abbrev Reinstalls : Fib Name D → Name → NexthopList D → Fib Name D → Type 0
  Reinstalls f name l g =
      (entry : FibEntry Name D) × (entry.nexthop_list ≡ l)
      × ((k : Name)
          → find fib_name k g.table ≡ (if k == name then some entry else find fib_name k f.table))

  abbrev new_entry : Fib Name D → AdjacencyList Name D → ℕ → Name → NexthopList D → FibEntry Name D
  new_entry f adjs now name hops = record {
    name = name;
    expiration_time_point = now + f.refresh_time;
    expiring_event_id = length (register_hops adjs name hops f).calls;
    seq_no = 1;
    nexthop_list = filled_hops [] hops;
  }

  abbrev again :
      Fib Name D
      → AdjacencyList Name D
      → ℕ
      → Name
      → NexthopList D
      → FibEntry Name D
      → FibEntry Name D
      → FibEntry Name D
  again f adjs now name hops entry x = record x {
    expiration_time_point = now + f.refresh_time;
    expiring_event_id = suc (
        length
          (remove_old_hops adjs entry.name hops (filled_hops entry.nexthop_list hops)
            (register_hops adjs entry.name hops f) (filled_hops entry.nexthop_list hops)).0.calls);
    seq_no = (entry.seq_no + 1) % 2 ^ 32;
    nexthop_list =
        kept_hops adjs entry.name hops (register_hops adjs entry.name hops f) entry.nexthop_list;
  }

  table-install_new :
      (f : Fib Name D) (adjs : AdjacencyList Name D) (now : ℕ) (name : Name) (hops : NexthopList D)
      → (install_new f adjs now name hops).table ≡ f.table ++ new_entry f adjs now name hops ∷ []
  unfolding install_new filled_hops
  table-install_new f adjs now name hops = ground (arith, register_hops-SameBut adjs name hops f)

  table-install_existing :
      (f : Fib Name D) (adjs : AdjacencyList Name D) (now : ℕ) (name : Name)
      (entry : FibEntry Name D) (hops : NexthopList D)
      → (install_existing f adjs now name entry hops).table
        ≡ modify fib_name name (again f adjs now name hops entry) f.table
  unfolding install_existing filled_hops kept_hops
  table-install_existing f adjs now name entry hops =
      ap (modify fib_name name (again f adjs now name hops entry)) (
        ground (
          arith,
          register_hops-SameBut adjs entry.name hops f,
          remove_old_hops-SameBut adjs entry.name hops (filled_hops entry.nexthop_list hops)
              (register_hops adjs entry.name hops f) (filled_hops entry.nexthop_list hops),
        ))

  module _ (f : Fib Name D) (adjs : AdjacencyList Name D) (now : ℕ) (name : Name)
      (hops : NexthopList D) (v : IsValid f) where
    install_new-IsValid :
        find fib_name name f.table ≡ none → hops ≢ [] → IsValid (install_new f adjs now name hops)
    install_new-IsValid miss ne =
        let entry = new_entry f adjs now name hops in
        let faces = new_hops-HasFacesOf hops in
        record {
          one_per_name =
              rw (table-install_new f adjs now name hops)
                (Distinct-push fib_name f.table entry miss v.one_per_name);
          installed = rw (table-install_new f adjs now name hops) (
              All-push fib_name IsInstalled f.table entry v.installed
                (faces.0, HasFacesOf-nonempty hops (filled_hops [] hops) faces ne));
        }

    install_existing-IsValid :
        (entry : FibEntry Name D)
        → find fib_name name f.table ≡ some entry
        → hops ≢ []
        → IsValid (install_existing f adjs now name entry hops)
    install_existing-IsValid entry hit ne =
        let g = register_hops adjs entry.name hops f in
        let old = All-found fib_name IsInstalled name f.table entry v.installed hit in
        let faces = kept_hops-HasFacesOf adjs entry.name hops g entry.nexthop_list old.0 in
        record {
          one_per_name = rw (table-install_existing f adjs now name entry hops) (
              Distinct-modify fib_name (again f adjs now name hops entry) (λ x. refl) name f.table
                v.one_per_name);
          installed = rw (table-install_existing f adjs now name entry hops) (
              All-modify fib_name IsInstalled name (again f adjs now name hops entry) f.table
                (λ x. (faces.0, HasFacesOf-nonempty hops _ faces ne)) v.installed);
        }

    -- The entry of another name is found as before.
    find-install_new :
        (k : Name)
        → find fib_name name f.table ≡ none
        → find fib_name k (install_new f adjs now name hops).table
          ≡ (if k == name then some (new_entry f adjs now name hops) else find fib_name k f.table)
    find-install_new k miss = rw (table-install_new f adjs now name hops) (
        ground (
          arith,
          e.beq_iff k name,
          e.beq_iff name k,
          find-push fib_name k f.table (new_entry f adjs now name hops),
        ))

    find-install_existing :
        (entry : FibEntry Name D) (k : Name)
        → find fib_name name f.table ≡ some entry
        → find fib_name k (install_existing f adjs now name entry hops).table ≡ (
            if k == name
            then some (again f adjs now name hops entry entry)
            else find fib_name k f.table)
    find-install_existing entry k hit = rw (table-install_existing f adjs now name entry hops) (
        ground (
          arith,
          e.beq_iff k name,
          find-modify fib_name (again f adjs now name hops entry) (λ x. refl) name k f.table,
        ))

    -- Where the branches of `update` lead.
    update_cases {μ} :
        (P : Fib Name D → Type μ)
        → (hops ≡ [] → find fib_name name f.table ≡ none → P f)
        → (hops ≡ [] → P (remove f adjs name))
        → (hops ≢ [] → find fib_name name f.table ≡ none → P (install_new f adjs now name hops))
        → ((entry : FibEntry Name D)
            → hops ≢ []
            → find fib_name name f.table ≡ some entry
            → P (install_existing f adjs now name entry hops))
        → P (update_to f adjs now name hops)
    unfolding update_to
    update_cases P idle gone fresh again_ = elim (Option-cases (find fib_name name f.table)) [
      | inl miss ↦ elim (Bool-cases (length hops == 0)) [
        | inl empty ↦ rw (miss, update_to, empty) (idle ((length-zero_iff hops).0 empty) miss)
        | inr full ↦ rw (miss, update_to, full) (fresh (length-ne_zero hops full) miss)
      ]
      | inr (entry, hit) ↦ elim (Bool-cases (length hops == 0)) [
        | inl empty ↦ rw (hit, update_to, empty) (gone ((length-zero_iff hops).0 empty))
        | inr full ↦ rw (hit, update_to, full) (again_ entry (length-ne_zero hops full) hit)
      ]
    ]

    update_to-IsValid : IsValid (update_to f adjs now name hops)
    update_to-IsValid =
        update_cases IsValid (λ _ _. v) (λ _. remove-IsValid f adjs name v)
          (λ ne miss. install_new-IsValid miss ne)
          (λ entry ne hit. install_existing-IsValid entry hit ne)

    find-update_to_ne :
        (k : Name)
        → k ≢ name
        → find fib_name k (update_to f adjs now name hops).table ≡ find fib_name k f.table
    find-update_to_ne k other =
        update_cases (λ g. find fib_name k g.table ≡ find fib_name k f.table) (λ _ _. refl)
          (λ _. ground (arith, find-remove f adjs name k v, e.beq_iff k name))
          (λ ne miss. ground (arith, find-install_new k miss, e.beq_iff k name))
          (λ entry ne hit. ground (arith, find-install_existing entry k hit, e.beq_iff k name))

    update_to-Installs : Installs hops (find fib_name name (update_to f adjs now name hops).table)
    update_to-Installs =
        update_cases (λ g. Installs hops (find fib_name name g.table)) (λ empty miss. rw miss empty)
          (λ empty. rw (find-remove f adjs name name v, ==_refl name) empty)
          (λ ne miss. rw (find-install_new name miss, ==_refl name) (ne, new_hops-HasFacesOf hops))
          (λ entry ne hit.
            rw (find-install_existing entry name hit, ==_refl name)
              (
                ne,
                kept_hops-HasFacesOf adjs entry.name hops (register_hops adjs entry.name hops f)
                    entry.nexthop_list
                    (All-found fib_name IsInstalled name f.table entry v.installed hit).0,
              ))

  -- An update keeps the table in order: one entry for each name, each with at least one hop and one
  -- hop for each of its faces. Under its name it leaves no entry if there is no hop to install, and
  -- otherwise an entry with exactly the faces to be installed. It changes no other name's entry.
  pub update-Installs :
      (f : Fib Name D) (adjs : AdjacencyList Name D) (max_faces now : ℕ) (name : Name)
      (all_hops : NexthopList D)
      → IsValid f
      → let g = update f adjs max_faces now name all_hops in
        IsValid g
        × Installs (hops_to_install max_faces all_hops) (find fib_name name g.table)
        × ((k : Name) → k ≢ name → find fib_name k g.table ≡ find fib_name k f.table)
  unfolding update
  update-Installs f adjs max_faces now name all_hops v =
      let hops = hops_to_install max_faces all_hops in
      (
        update_to-IsValid f adjs now name hops v,
        update_to-Installs f adjs now name hops v,
        find-update_to_ne f adjs now name hops v,
      )
