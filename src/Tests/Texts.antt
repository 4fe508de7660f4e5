-- ===== src/Tests/Texts.antt =====
-- The texts and paths of agent/server/impl/Utils.cpp at concrete names.
use oort_agent.Base.{
  List, [], Option, some, length, ◌≤◌, ◌≡◌, ◌⊎◌, true, false, ◌++◌, ◌∷◌, Bytes, codes, arith, ok,
  raise, out_of_range,
}
use oort_agent.Utils.Paths.{dirname, tailname, rootname, extension, ends_with, chop}
use oort_agent.Utils.Paths.Split.{Lacks, dirname-tailname, rootname-extension}
use oort_agent.Utils.Paths.Affix.{chop_short, chop_lem}
use oort_agent.Utils.Process.{read_into_string}
use oort_agent.Utils.Process.Limits.{stream, read_into_string_lem}
use oort_agent.Utils.Uuid.{mk_uuid}
use oort_agent.Utils.Uuid.Form.{is_uuid4, mk_uuid-is_uuid4}

abbrev path : Bytes
path = codes "/data/x.tar"

dirname-tailname_example :
    (Lacks b'/' path × (dirname path ≡ path) × (tailname path ≡ path))
    ⊎ ((path ≡ dirname path ++ b'/' ∷ tailname path) × Lacks b'/' (tailname path))
dirname-tailname_example = dirname-tailname path

rootname-extension_example :
    (Lacks b'.' path × (rootname path ≡ path) × (extension path ≡ []))
    ⊎ ((path ≡ rootname path ++ extension path)
        × ((e : Bytes) × (extension path ≡ b'.' ∷ e) × Lacks b'.' e))
rootname-extension_example = rootname-extension path

chop_short_example : chop (codes "ab") (codes ".meta") ≡ raise out_of_range
chop_short_example = chop_short (codes "ab") (codes ".meta") (omega arith) (omega arith)

chop_lem_example :
    ((p : Bytes) × (path ≡ p ++ codes ".tar") × (chop path (codes ".tar") ≡ ok p))
    ⊎ ((ends_with path (codes ".tar") ≡ false) × (chop path (codes ".tar") ≡ ok path))
chop_lem_example = chop_lem path (codes ".tar") (omega arith)

mk_uuid-is_uuid4_example : is_uuid4 (mk_uuid λ i. i) ≡ true
mk_uuid-is_uuid4_example = mk_uuid-is_uuid4 λ i. i

abbrev chunks : List (Option Bytes)
chunks = some (codes "ab") ∷ some (codes "cd") ∷ some [] ∷ []

read_into_string_lem_example :
    (length (read_into_string 10 chunks (codes "x")).1 ≤ 10)
    × ((read_into_string 10 chunks (codes "x")).0 ≡ true
        → (read_into_string 10 chunks (codes "x")).1 ≡ codes "x" ++ stream chunks)
read_into_string_lem_example = read_into_string_lem 10 chunks (codes "x") (omega arith)
