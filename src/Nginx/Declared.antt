-- ===== src/Nginx/Declared.antt =====
-- Every upstream that requests are passed to is declared, in what a template prints for its hosts.
use Prim.Derive.{subst}
use interlock_old.Prelude.{
  ◌≡◌, refl, inl, inr, String, ◌<>◌, true, false, List, All-imp, IsIn, ◌==◌, Bool-cases,
}
use interlock_old.Prelude.Int.{ℤ}
use interlock_old.Go.Outcome.{ok}
use interlock_old.Go.Text.{contains}
use interlock_old.Go.Template.{Output, ◌⊕◌, each_at}
use interlock_old.Go.Template.Scan.{
  names, AllNames, AllNames-join, AllNames-each_at, IsIn-names-left, IsIn-names-right, IsIn-each_at,
}
use interlock_old.Routing.{ContextRoot}
use interlock_old.Nginx.{Host}
use interlock_old.Nginx.Blocks.{root_location, root_upstream, host_upstream, host_section}
use interlock_old.Nginx.Template.{}
use interlock_old.Nginx.Template.Plus.{}
use interlock_old.Nginx.Proxied.{
  rooted_name, proxy_target, upstream_name, root_location-targets, host_section-targets,
}

-- Each upstream that requests are passed to is declared.
abbrev pub IsDeclared : Output → Type 0
IsDeclared o = AllNames proxy_target (λ n. IsIn n (names upstream_name o)) o

pub IsDeclared-same : {o p : Output} → o ≡ p → IsDeclared o → IsDeclared p
IsDeclared-same same declared = subst IsDeclared same declared

module _ (show_int : ℤ → String) where
  host_section-rooted :
      (server : Host → Output) (h : Host) (root : ContextRoot)
      → (root.path == "") ≡ false
      → IsIn ("ctx" <> root.name) (names upstream_name (host_section show_int server h root))
  unfolding host_section root_upstream upstream_name contains rooted_name
  host_section-rooted server h root set = rw (host_section, set) (inl refl)

  host_section-own :
      (server : Host → Output) (h : Host) (root : ContextRoot)
      → (root.path == "") ≡ true
      → IsIn h.upstream.name (names upstream_name (host_section show_int server h root))
  unfolding host_section host_upstream upstream_name contains rooted_name
  host_section-own server h root none_set = rw (host_section, none_set) (inl refl)

  -- What stands around the hosts passes requests to nothing, and the servers only to their own upstream.
  module _ (server : Host → Output) (hosts : List Host) (locations sections : Output)
      (located : each_at (λ h. h.context_root) (root_location show_int) hosts ≡ ok locations)
      (printed : each_at (λ h. h.context_root) (host_section show_int server) hosts ≡ ok sections)
      (passes : (P : String → Type 0) (h : Host)
        → P h.upstream.name
        → AllNames proxy_target P (server h)) where
    locations-declared :
        AllNames proxy_target (λ n. IsIn n (names upstream_name sections)) locations
    locations-declared =
        AllNames-each_at proxy_target (λ h. h.context_root) (root_location show_int) hosts locations
          located
          (λ h root i there. elim (Bool-cases (root.path == "")) [
            | inl none_set ↦ root_location-targets show_int h root (inl none_set)
            | inr set ↦ root_location-targets show_int h root (
                inr (
                  IsIn-each_at upstream_name (λ h. h.context_root) (host_section show_int server)
                    ("ctx" <> root.name) hosts sections printed h root i there
                    (host_section-rooted server h root set)))
          ])

    sections-declared : AllNames proxy_target (λ n. IsIn n (names upstream_name sections)) sections
    sections-declared =
        AllNames-each_at proxy_target (λ h. h.context_root) (host_section show_int server) hosts
          sections printed
          (λ h root i there. elim (Bool-cases (root.path == "")) [
            | inr set ↦ host_section-targets show_int server h root (passes _ h) (inl set)
            | inl none_set ↦ host_section-targets show_int server h root (passes _ h) (
                inr (
                  IsIn-each_at upstream_name (λ h. h.context_root) (host_section show_int server)
                    h.upstream.name hosts sections printed h root i there
                    (host_section-own server h root none_set)))
          ])

    pub template-IsDeclared :
        (main default end tail : Output)
        → ((P : String → Type 0) → AllNames proxy_target P main)
        → ((P : String → Type 0) → AllNames proxy_target P default)
        → ((P : String → Type 0) → AllNames proxy_target P end)
        → ((P : String → Type 0) → AllNames proxy_target P tail)
        → IsDeclared (main ⊕ default ⊕ locations ⊕ end ⊕ sections ⊕ tail)
    template-IsDeclared main default end tail no_main no_default no_end no_tail =
        let lift : (n : String)
            → IsIn n (names upstream_name sections)
            → IsIn n (names upstream_name (main ⊕ default ⊕ locations ⊕ end ⊕ sections ⊕ tail)) =
          λ n i.
            IsIn-names-right upstream_name n main (default ⊕ locations ⊕ end ⊕ sections ⊕ tail) (
              IsIn-names-right upstream_name n default (locations ⊕ end ⊕ sections ⊕ tail) (
                IsIn-names-right upstream_name n locations (end ⊕ sections ⊕ tail) (
                  IsIn-names-right upstream_name n end (sections ⊕ tail)
                    (IsIn-names-left upstream_name n sections tail i)))) in
        AllNames-join proxy_target (no_main _) (
          AllNames-join proxy_target (no_default _) (
            AllNames-join proxy_target
              (record {
                holds = All-imp (names proxy_target locations) lift locations-declared.holds;
              })
              (AllNames-join proxy_target (no_end _) (
                AllNames-join proxy_target
                  (record {
                    holds = All-imp (names proxy_target sections) lift sections-declared.holds;
                  })
                  (no_tail _)))))
