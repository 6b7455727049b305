-- ===== src/Artifacts/Extraction.antt =====
-- What the extraction of src/runner_daemon/artifacts.rs writes, whatever the archive holds.
use turboci.Prelude.{
  ◌≡◌, refl, sym, ◌∙◌, ap, ◌++◌, append-nil, ℕ, zero, suc, ◌+◌, ◌-◌, ◌≤◌, arith, Bool, true, false,
  ltb, List, [], ◌∷◌, length, Option, none, some, Bytes,
}
use turboci.Program.{Program, Protocol, Keeps, Keeps-bind, Keeps-if, done, ask, ◌>>=◌}
use turboci.Artifacts.{
  Component, normal, cur_dir, parent_dir, root_dir, prefix, ExtractLimits, Kind, directory, symlink,
  file, Entry, Op, by_index, copy, Answer, continue, parent, file_name, symlink_stays_inside,
  enter_dirs, saturating_sub, set_permissions, after_copy, write_file, write_symlink, write_kind,
  place_leaf, is_dir, place, extract_entry, next_entry, extract_loop, extract_zip_reader,
}
use turboci.Artifacts.Writes.{Progress, below, path_of, Places, entered, copied, extracting, Within}
use turboci.Artifacts.Symlinks.{symlink-Inside}

some_inj : {x y : Bytes} → some x ≡ some y → x ≡ y
some_inj e = cc

-- A path with a file name ends in it.
parent-file_name :
    (cs : List Component) (name : Bytes)
    → file_name cs ≡ some name
    → cs ≡ parent cs ++ normal name ∷ []
unfolding file_name parent
parent-file_name [] name h = absurd (cc h)
parent-file_name (normal x ∷ []) name h = ap (λ (n : Bytes). normal n ∷ []) (some_inj h)
parent-file_name (cur_dir ∷ []) name h = absurd (cc h)
parent-file_name (parent_dir ∷ []) name h = absurd (cc h)
parent-file_name (root_dir ∷ []) name h = absurd (cc h)
parent-file_name (prefix ∷ []) name h = absurd (cc h)
parent-file_name (c ∷ d ∷ cs) name h = ap (◌∷◌ c) (parent-file_name (d ∷ cs) name h)

fits :
    (written remaining total max_total : ℕ)
    → ltb remaining written ≡ false
    → remaining ≡ max_total - total
    → total ≤ max_total
    → total + written ≤ max_total
fits written remaining total max_total b r h = ground arith

module _ (components : Bytes → List Component) (limits : ExtractLimits) where
  abbrev p : Protocol Op Answer Progress
  p = extracting components limits

  -- The bytes so far are known and within the limit.
  abbrev Known : ℕ → Progress → Type 0
  Known total s = (s.total ≡ total) × (total ≤ limits.max_total_bytes)

  abbrev Fine : Progress → Program Op Answer (Option ℕ) → Type 0
  Fine s m = Keeps p (Within limits) s m

  continue-Fine :
      (s : Progress) (total : ℕ) (k : Program Op Answer (Option ℕ)) (x : Bool)
      → Known total s
      → Fine s k
      → Fine s (continue k x)
  unfolding continue
  continue-Fine s total k true h f = f
  continue-Fine s total k false h f = omega (arith, h.0, h.1)

  permissions-Fine :
      (s : Progress) (mode : Option ℕ) (total : ℕ)
      → Known total s
      → Fine s (set_permissions mode total)
  unfolding set_permissions
  permissions-Fine s none total h = h
  permissions-Fine s (some mode) total h =
      (omega arith, λ x e. continue-Fine s total (done (some total)) x h h)

  copy-Fine :
      (s : Progress) (remaining total : ℕ) (mode : Option ℕ) (x : Option ℕ)
      → Known total s
      → remaining ≡ limits.max_total_bytes - total
      → p.expected s (copy (remaining + 1)) x
      → Fine (copied s x) (after_copy remaining total mode x)
  unfolding after_copy
  copy-Fine s remaining total mode none h r e = omega (arith, h.0, h.1)
  copy-Fine s remaining total mode (some written) h r e =
      Keeps-if p (Within limits) (copied s (some written)) (ltb remaining written) _ _
        (λ b. omega (arith, h.0, h.1, e))
        (λ b.
          permissions-Fine (copied s (some written)) mode (total + written)
            (omega (arith, h.0), fits written remaining total limits.max_total_bytes b r h.1))

  file-Fine :
      (s : Progress) (total : ℕ) (mode : Option ℕ) (name : Bytes)
      → Known total s
      → Places s name
      → Fine s (write_file limits total mode name)
  unfolding write_file saturating_sub
  file-Fine s total mode name h g =
      let remaining = limits.max_total_bytes - total in
      (
        g,
        λ x e.
            continue-Fine s total (ask (copy (remaining + 1)) >>= after_copy remaining total mode) x
              h (omega (arith, h.0, h.1), λ x e. copy-Fine s remaining total mode x h refl e),
      )

  symlink-Fine :
      (s : Progress) (total : ℕ) (rel_path : List Component) (name : Bytes) (target : Option Bytes)
      → length s.dir ≡ length (parent rel_path)
      → Known total s
      → Places s name
      → Fine s (write_symlink components total rel_path name target)
  unfolding write_symlink
  symlink-Fine s total rel_path name none d h g = omega (arith, h.0, h.1)
  symlink-Fine s total rel_path name (some target) d h g =
      Keeps-if p (Within limits) s (symlink_stays_inside rel_path (components target)) _
        (done (some total))
        (λ b. (
          (g, symlink-Inside rel_path (components target) s.dir d b),
          λ x e. continue-Fine s total (done (some total)) x h h,
        ))
        (λ b. h)

  leaf-Fine :
      (s : Progress) (total : ℕ) (rel_path : List Component) (entry : Entry) (name : Bytes)
      (kind : Kind)
      → length s.dir ≡ length (parent rel_path)
      → Known total s
      → Places s name
      → Fine s (write_kind components limits total rel_path entry name kind)
  unfolding write_kind
  leaf-Fine s total rel_path entry name directory d h g = h
  leaf-Fine s total rel_path entry name (symlink target) d h g =
      symlink-Fine s total rel_path name target d h g
  leaf-Fine s total rel_path entry name file d h g = file-Fine s total entry.mode name h g

  entered-Fine :
      (s : Progress) (name : Bytes) (total : ℕ) (k : Program Op Answer (Option ℕ)) (x : Bool)
      → Known total s
      → Fine (record s { dir = name ∷ s.dir }) k
      → Fine (entered s name x) (continue k x)
  unfolding continue
  entered-Fine s name total k true h f = f
  entered-Fine s name total k false h f = omega (arith, h.0, h.1)

  -- Directories are entered one by one, so the open one is as deep as the path says, and its names
  -- are those of the path.
  enter-Fine :
      (cs tail : List Component) (s : Progress) (total : ℕ) (k : Program Op Answer (Option ℕ))
      → Known total s
      → path_of s.entry ≡ some (below s.dir (cs ++ tail))
      → ((t : Progress)
          → length t.dir ≡ length s.dir + length cs
          → path_of t.entry ≡ some (below t.dir tail)
          → Known total t
          → Fine t k)
      → Fine s (enter_dirs cs k)
  unfolding enter_dirs
  enter-Fine [] tail s total k h g f = f s (omega arith) g h
  enter-Fine (cur_dir ∷ cs) tail s total k h g f = omega (arith, h.0, h.1)
  enter-Fine (parent_dir ∷ cs) tail s total k h g f = omega (arith, h.0, h.1)
  enter-Fine (root_dir ∷ cs) tail s total k h g f = omega (arith, h.0, h.1)
  enter-Fine (prefix ∷ cs) tail s total k h g f = omega (arith, h.0, h.1)
  enter-Fine (normal name ∷ cs) tail s total k h g f = (
    (cs ++ tail, g),
    λ x e. entered-Fine s name total (enter_dirs cs k) x h (
        enter-Fine cs tail (record s { dir = name ∷ s.dir }) total k h g
          (λ t d p k. f t (omega (arith, d)) p k)),
  )

  leaf_placed :
      (s : Progress) (total : ℕ) (rel_path : List Component) (entry : Entry) (name : Option Bytes)
      → Known total s
      → path_of s.entry ≡ some rel_path
      → file_name rel_path ≡ name
      → Fine s (place_leaf components limits total rel_path entry name)
  unfolding place_leaf
  leaf_placed s total rel_path entry none h g n = omega (arith, h.0, h.1)
  leaf_placed s total rel_path entry (some name) h g n =
      let k = write_kind components limits total rel_path entry name entry.kind in
      (
        tt,
        λ x e.
            continue-Fine (record s { dir = [] }) total (enter_dirs (parent rel_path) k) x h
              (enter-Fine (parent rel_path) (normal name ∷ []) (record s { dir = [] }) total k h
                (g ∙ ap (λ (p : List Component). some p) (parent-file_name rel_path name n))
                (λ t d p h.
                  leaf-Fine t total rel_path entry name entry.kind (omega (arith, d)) h p)),
      )

  placed :
      (s : Progress) (total : ℕ) (entry : Entry) (path : Option (List Component))
      → Known total s
      → path_of s.entry ≡ path
      → Fine s (place components limits total entry path)
  unfolding place
  placed s total entry none h g = omega (arith, h.0, h.1)
  placed s total entry (some rel_path) h g =
      Keeps-if p (Within limits) s (is_dir entry.kind) _
        (place_leaf components limits total rel_path entry (file_name rel_path))
        (λ b. (
          tt,
          λ x e.
              continue-Fine (record s { dir = [] }) total (enter_dirs rel_path (done (some total)))
                x h
                (enter-Fine rel_path [] (record s { dir = [] }) total (done (some total)) h
                  (g ∙ ap (λ (p : List Component). some p) (sym (append-nil rel_path)))
                  (λ t d p h. h)),
        ))
        (λ b. leaf_placed s total rel_path entry (file_name rel_path) h g refl)

  entry-Fine :
      (s : Progress) (total : ℕ) (entry : Option Entry)
      → Known total s
      → Fine (record s { entry = entry }) (extract_entry components limits total entry)
  unfolding extract_entry
  entry-Fine s total none h = omega (arith, h.0, h.1)
  entry-Fine s total (some entry) h =
      placed (record s { entry = some entry }) total entry entry.enclosed_name h refl

  next-Fine :
      (k : ℕ → Program Op Answer (Option ℕ)) (t : Progress) (r : Option ℕ)
      → Within limits t r
      → ((u : Progress) (total : ℕ) → Known total u → Fine u (k total))
      → Fine t (next_entry k r)
  unfolding next_entry
  next-Fine k t none w f = w
  next-Fine k t (some total) w f = f t total w

  loop-Fine :
      (left i total : ℕ) (s : Progress)
      → Known total s
      → Fine s (extract_loop components limits left i total)
  unfolding extract_loop
  loop-Fine zero i total s h = h
  loop-Fine (suc left) i total s h =
      let again = extract_loop components limits left (i + 1) in
      (
        tt,
        λ x e.
            continue-Fine s total
              (ask (by_index i) >>= extract_entry components limits total >>= next_entry again) x h
              (
                tt,
                λ entry e.
                    Keeps-bind p (Within limits) (Within limits) (record s { entry = entry })
                      (extract_entry components limits total entry) (next_entry again)
                      (entry-Fine s total entry h)
                      (λ t r w.
                        next-Fine again t r w (λ u total g. loop-Fine left (i + 1) total u g)),
              ),
      )

-- Whatever an archive holds, its extraction opens directories and creates files and symlinks only by
-- the names of the entry's own path, one after the other from the workspace down, and by no step to a
-- parent or a root, which a path with such a step never gets past; it creates only symlinks whose
-- target, followed name by name, stays in the workspace; it writes at most one byte more than the
-- limit, and none more if it succeeds; and it sets no setuid, setgid or sticky bit.
pub extraction_confined :
    (components : Bytes → List Component) (limits : ExtractLimits) (len : ℕ)
    → Keeps
        (extracting components limits)
        (Within limits)
        (record { dir = []; total = 0; entry = none })
        (extract_zip_reader components limits len)
unfolding extract_zip_reader
extraction_confined components limits len =
    let begun : Progress = record { dir = []; total = 0; entry = none } in
    let known : Known components limits 0 begun = (refl, omega arith) in
    Keeps-if (extracting components limits) (Within limits) begun (ltb limits.max_entries len)
      (done none) _ (λ b. omega arith)
      (λ b. (
        tt,
        λ x e. continue-Fine components limits begun 0 _ x known (
          tt,
          λ x e.
              continue-Fine components limits begun 0 (extract_loop components limits len 0 0) x
                known (loop-Fine components limits len 0 0 begun known),
        ),
      ))
