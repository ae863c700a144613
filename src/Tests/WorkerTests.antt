-- ===== src/Tests/WorkerTests.antt =====
-- Object storage, memory limits and credentials at concrete inputs.
use sandboxd_teleport.Prelude.{
  List, ℕ, String, true, false, ◌≡◌, ◌⊎◌, ◌≤◌, ◌<◌, ◌+◌, ◌*◌, ◌/◌, refl, none, some, [], ◌∷◌,
  str_eq, arith, sym, ap, ◌∙◌, ◌==◌, listed, Bool, inl, inr, Bool-cases, eq_iff,
}
use Prim.Native.Char.{Char, code}
use Prim.Native.String.append
use Prim.Native.String.{◌++◌}
use text.Mathlib.Text.{starts_with}
use text.Mathlib.TextEquality.{starts_with_iff}
use sandboxd_teleport.Storage.{Failures, all_keys, base_name, list_pages, promote, reclaim}
use sandboxd_teleport.Storage.Copies.{promote-HasCopy}
use sandboxd_teleport.Storage.Memory.{paged}
use sandboxd_teleport.Storage.Pages.{reclaim-promote}
use sandboxd_teleport.Sandboxd.Memory.{sandbox_mem_limit, default_config, sandbox_mem_limit_bounds}
use sandboxd_teleport.Sandboxd.Supervisor.{Sandbox, Server, Host, run_ticks}
use sandboxd_teleport.Sandboxd.Supervisor.Bounded.{Bounded, count_starts, run_ticks-Bounded}
use sandboxd_teleport.Sandboxd.Credentials.{
  Issuer, CredSet, CredVendor, CredRequest, vended, new_cred_vendor, register_role, serve_creds,
  creds_for, is_valid_at,
}
use sandboxd_teleport.Sandboxd.Credentials.Issued.{
  CacheSound, Issued, new_cred_vendor-CacheSound, register_role-CacheSound, serve_creds-Issued,
  creds_for_stale,
}

program : Unit {0}
unfolding paged list_pages promote reclaim sandbox_mem_limit register_role serve_creds creds_for
    is_valid_at base_name listed
program = tt

no_failures : Failures
no_failures = record { list = λ x. false; copy = λ x. false; delete = λ x. false }

stored : (paged {V = ℕ}).Map
unfolding paged
stored = ("sandboxes/s1/snap-1/a", 1) ∷ ("sandboxes/s1/snap-1/b", 2) ∷ ("bases/b2/snap-9/a", 3) ∷ []

two_pages :
    list_pages (paged {V = ℕ}) no_failures 3 stored "sandboxes/s1/" none
    ≡ all_keys ("sandboxes/s1/snap-1/a" ∷ "sandboxes/s1/snap-1/b" ∷ [])
unfolding program no_failures stored
two_pages = refl

copied :
    (promote (paged {V = ℕ}) no_failures "b1" "sandboxes/s1/snap-1/" stored).0
    ≡ some ("bases/b1/snap-1", 2)
unfolding program no_failures stored
copied = refl

reclaim-promote_example :
    ((reclaim
        (paged {V = ℕ})
        no_failures
        "b1"
        (promote (paged {V = ℕ}) no_failures "b1" "sandboxes/s1/snap-1/" stored).1).0
      ≡ true)
    × ((paged {V = ℕ}).get
          (reclaim
            (paged {V = ℕ})
            no_failures
            "b1"
            (promote (paged {V = ℕ}) no_failures "b1" "sandboxes/s1/snap-1/" stored).1).1
          "bases/b2/snap-9/a"
        ≡ some 3)
unfolding program no_failures stored
reclaim-promote_example =
    reclaim-promote (paged {V = ℕ}) no_failures "b1" "sandboxes/s1/snap-1/" stored
      "bases/b2/snap-9/a" refl (λ key. refl)

starts_at_b : String → Bool
starts_at_b String.[] = false
starts_at_b (String.◌∷◌ c s) = code c == 98

starts_at_b-append :
    (c : Char) (s t : String) → starts_at_b ((String.◌∷◌ c s) ++ t) ≡ (code c == 98)
unfolding starts_at_b
starts_at_b-append c s t = ap starts_at_b (append.cons c s t)

not_a_base :
    (key : String)
    → starts_with key "sandboxes/s1/snap-1/" ≡ true
    → starts_with key "bases/b1/" ≡ false
unfolding starts_at_b
not_a_base key h = elim (Bool-cases (starts_with key "bases/b1/")) [
  | inl also ↦
      let (u, left) = (starts_with_iff key "sandboxes/s1/snap-1/").0 h in
      let (v, right) = (starts_with_iff key "bases/b1/").0 also in
      let clash : false ≡ true =
        sym (starts_at_b-append "s" "andboxes/s1/snap-1/" u)
        ∙ ap starts_at_b (left ∙ sym right)
        ∙ starts_at_b-append "b" "ases/b1/" v in
      absurd (ground (arith, clash))
  | inr other ↦ other
]

one_named_a :
    (j : String)
    → listed j ("sandboxes/s1/snap-1/a" ∷ "sandboxes/s1/snap-1/b" ∷ []) ≡ true
    → base_name j ≡ "a"
    → j ≡ "sandboxes/s1/snap-1/a"
unfolding listed program
one_named_a j there named = elim (Bool-cases (str_eq "sandboxes/s1/snap-1/a" j)) [
  | inl same ↦ ground (arith, eq_iff "sandboxes/s1/snap-1/a" j, same)
  | inr other ↦
      let last : "sandboxes/s1/snap-1/b" ≡ j =
        ground (arith, eq_iff "sandboxes/s1/snap-1/b" j, other, there) in
      let b : base_name "sandboxes/s1/snap-1/b" ≡ "a" = ap base_name last ∙ named in
      let clash : false ≡ true = ap (λ x. str_eq x "a") b in absurd (ground (arith, clash))
]

promote-HasCopy_example :
    ((promote (paged {V = ℕ}) no_failures "b1" "sandboxes/s1/snap-1/" stored).0
      ≡ some ("bases/b1/snap-1", 2))
    × ((paged {V = ℕ}).get
          (promote (paged {V = ℕ}) no_failures "b1" "sandboxes/s1/snap-1/" stored).1
          "bases/b1/snap-1/a"
        ≡ some 1)
unfolding program no_failures stored
promote-HasCopy_example =
    promote-HasCopy (paged {V = ℕ}) no_failures "b1" "sandboxes/s1/snap-1/" "sandboxes/s1/snap-1/a"
      1 stored (λ x. refl) refl refl not_a_base (λ x h. refl) refl refl one_named_a

one_gigabyte : sandbox_mem_limit (some 1073741824) default_config ≡ 805306368
unfolding program
one_gigabyte = refl

sandbox_mem_limit_bounds_example :
    let limit = sandbox_mem_limit (some 1073741824) default_config in
    (limit ≡ 0)
    ⊎ ((134217728 ≤ limit)
        × (limit + 268435456 ≤ 1073741824)
        × (1073741824 * 12 < 9223372036854775808 → limit + (1073741824 * 12) / 100 ≤ 1073741824))
sandbox_mem_limit_bounds_example = sandbox_mem_limit_bounds 1073741824 default_config

-- STS gives credentials for an hour, whatever the role.
abbrev sts : Issuer
sts = record {
  skew = 300;
  assume = λ now role sid. some (record {
    access_key_id = role;
    secret_access_key = sid;
    token = "t";
    expiration = now + 3600;
  });
  session_token = λ sid. sid;
}

abbrev registered : CredVendor
registered = register_role "s1" "role-a" new_cred_vendor

registered-CacheSound : CacheSound sts registered
registered-CacheSound =
    register_role-CacheSound sts "s1" "role-a" new_cred_vendor (new_cred_vendor-CacheSound sts)

abbrev asked : CredRequest
asked = record { sid = some "s1"; authorization = "s1" }

abbrev creds_a : CredSet
creds_a = record {
  access_key_id = "role-a";
  secret_access_key = "s1";
  token = "t";
  expiration = 3700;
}

serve_creds-Issued_example :
    CacheSound sts (serve_creds sts 100 (λ u. u) asked registered).1
    × ((cs : CredSet)
        → (serve_creds sts 100 (λ u. u) asked registered).0 ≡ vended cs
        → (sid : String) × (role : String) × (asked.sid ≡ some sid)
          × (str_eq asked.authorization (sts.session_token sid) ≡ true)
          × (registered.roles sid ≡ some role)
          × Issued sts role sid cs)
serve_creds-Issued_example = serve_creds-Issued sts 100 asked registered registered-CacheSound

given : (serve_creds sts 100 (λ u. u) asked registered).0 ≡ vended creds_a
unfolding program
given = refl

creds_for_stale_example :
    ((creds_for sts 100 (register_role "s1" "role-b") "s1" registered).1.roles "s1" ≡ some "role-b")
    × ((others : CredVendor → CredVendor)
        → (creds_for sts 200 others "s1"
            (creds_for sts 100 (register_role "s1" "role-b") "s1" registered).1).0
          ≡ some creds_a)
unfolding program
creds_for_stale_example =
    creds_for_stale sts 100 200 "s1" "role-a" "role-b" creds_a registered refl refl refl refl

-- A sandbox that stopped, and whose cold start fails each time.
abbrev crashing : Sandbox
crashing = record {
  id = "s1";
  bundle = "/b";
  snapshot = "";
  ports = [];
  health = record {
    restart_policy = "cold";
    probe = "";
    probe_port = 0;
    probe_path = "";
    idle_timeout_sec = 0;
  };
}

abbrev broken_host : Host
broken_host = record {
  now = 100;
  state = λ id. some "stopped";
  connects = λ port. false;
  status = λ port path. none;
  netns = false;
  builds_own_network = false;
  sets_up = λ id. true;
  has_s3 = false;
  downloads = λ uri. false;
  restores = λ id. false;
  creates = λ id. false;
}

abbrev new_server : Server
new_server = record { states = λ id. none; starts = []; restart_failures = 0 }

abbrev one_tick : Host × List Sandbox
one_tick = (broken_host, crashing ∷ [])

abbrev seven_ticks : List (Host × List Sandbox)
seven_ticks = one_tick ∷ one_tick ∷ one_tick ∷ one_tick ∷ one_tick ∷ one_tick ∷ one_tick ∷ []

five_starts : count_starts "s1" (run_ticks seven_ticks new_server).starts ≡ 5
unfolding run_ticks count_starts
five_starts = refl

run_ticks-Bounded_example : Bounded "s1" (run_ticks seven_ticks new_server)
unfolding run_ticks count_starts
run_ticks-Bounded_example = run_ticks-Bounded "s1" seven_ticks new_server (omega arith, omega arith)
