-- ===== src/Resource/Examples.antt =====
-- Tests of the resource registry and of housekeeping, and their theorems at concrete inputs.
use game_forge.Prelude.{
  lookup, subst, ◌≡◌, refl, String, true, [], ◌∷◌, Option, none, some, ok, All, In, inl, inr, arith,
}
use game_forge.Prelude.Int.{pos}
use game_forge.Project.Samples.{good_io}
use game_forge.Resource.{expired_resources, list, Resource, Files, Host, register, get, no_provider}
use game_forge.Resource.Files.{IsDirectory, keep}
use game_forge.Resource.Housekeeping.{closed, killed, Pass, tick}
use game_forge.Resource.Housekeeping.Passes.{spared, tick_files}
use game_forge.Resource.Housekeeping.Acts.{IsDueAct, tick_acts}
use game_forge.Resource.Servers.{check_foreign_owned}

abbrev dev : Resource
dev = record {
  id = "server-a-dev-7";
  run_id = "r1";
  project = "spin";
  project_key = "spin-a";
  kind = "server";
  provider = "local";
  namespace = "";
  pid = pos 7;
  host = "";
  created = 1;
  expires = 10;
  metadata = ("url", "http://h") ∷ ("name", "dev") ∷ ("pgid", "7") ∷ [];
}

abbrev tab : Resource
tab = record {
  id = "browser-b";
  run_id = "r2";
  project = "spin";
  project_key = "spin-a";
  kind = "browser";
  provider = "agent-browser";
  namespace = "b";
  pid = pos 0;
  host = "";
  created = 2;
  expires = 12;
  metadata = [];
}

abbrev fs : Files
fs = ("browser-b", some tab) ∷ ("broken", none) ∷ ("server-a-dev-7", some dev) ∷ []

abbrev host : Host
host = record { arrange = λ rs. rs; lists = true; removes = λ n. true; closes_browser = λ n. true }

register_no_provider : register good_io 5 (record dev { provider = "" }) fs ≡ (fs, some no_provider)
unfolding register
register_no_provider = refl

get-register :
    get "browser-b" (register good_io 5 (record tab { expires = 30 }) fs).0
    ≡ ok (record tab { expires = 30 })
unfolding register get
get-register = refl

-- At time 11 the server has expired and the browser has not.
tick_at_11 :
    tick host 11 [] fs
    ≡ ok (record {
      files = ("browser-b", some tab) ∷ ("broken", none) ∷ [];
      acts = killed (pos 7) (some "7") ∷ [];
      result = record {
        reclaimed =
            record { id = "server-a-dev-7"; kind = "server"; provider = "local"; namespace = "" }
            ∷ [];
        failed = 0;
      };
    })
unfolding tick expired_resources
tick_at_11 = refl

-- At time 20 both have, but the server's run is in flight.
tick_at_20 : (p : Pass) × (tick host 20 ("r1" ∷ []) fs ≡ ok p) × (p.acts ≡ closed "b" ∷ [])
unfolding tick expired_resources
tick_at_20 = (_, refl, refl)

foreign_url : check_foreign_owned (some host) "http://h" "other-b" fs ≡ some "spin-a"
unfolding check_foreign_owned list
foreign_url = refl

-- A file of the directory is the one that its name leads to.
found : (n : String) (c : Option Resource) → In (n, c) fs → lookup n fs ≡ some c
unfolding lookup
found n c i = elim i [
  | inl e ↦ subst (λ (f : String × Option Resource). lookup f.0 fs ≡ some f.1) e refl
  | inr j ↦ elim j [
    | inl e ↦ subst (λ (f : String × Option Resource). lookup f.0 fs ≡ some f.1) e refl
    | inr k ↦ elim k [
      | inl e ↦ subst (λ (f : String × Option Resource). lookup f.0 fs ≡ some f.1) e refl
      | inr l ↦ elim l [ ]
    ]
  ]
]

fs-IsDirectory : IsDirectory fs
fs-IsDirectory = record {
  one = λ n c d i j. let e = found n c i in let f = found n d j in cc;
  named = λ n r i. elim i [
    | inl e ↦ ground arith
    | inr j ↦ elim j [
      | inl e ↦ ground arith
      | inr k ↦ elim k [ inl e ↦ ground arith | inr l ↦ elim l [ ] ]
    ]
  ];
}

tick_files_example :
    (p : Pass) × (tick host 11 [] fs ≡ ok p) × (p.files ≡ keep (spared host 11 []) fs)
tick_files_example = tick_files host 11 [] fs (λ r rs. (λ i. i, λ i. i)) fs-IsDirectory refl

tick_acts_example : All (IsDueAct host 11 [] fs) (killed (pos 7) (some "7") ∷ [])
unfolding tick expired_resources
tick_acts_example =
    tick_acts host 11 [] fs
      (record {
        files = ("browser-b", some tab) ∷ ("broken", none) ∷ [];
        acts = killed (pos 7) (some "7") ∷ [];
        result = record {
          reclaimed =
              record { id = "server-a-dev-7"; kind = "server"; provider = "local"; namespace = "" }
              ∷ [];
          failed = 0;
        };
      })
      (λ r rs i. i) refl
