-- ===== src/Tests/Observed.antt =====
-- crates/tracer: a compiler that reads `c:\w\a.c`, a linker that runs after it, and the manifest of both.
use mathlib.Core.List.{Memᴰ}
use mathlib.Core.List.Memᴰ
use sembazuru.Base.{
  ℕ, get_or, Bool, List, some, All, ◌≢◌, sym, ap, subst, ◌∙◌, ◌≡◌, refl, true, false, [], ◌∷◌, ◌++◌,
  none, arith,
}
use sembazuru.Base.Texts.{same}
use sembazuru.Base.Assoc.{text_eq, lookup, insert}
use sembazuru.Cas.Fingerprint.{each, starts_with, listed}
use sembazuru.Tracer.Model.{FileOp, Trace, AccessKind, succeeded}
use sembazuru.Tracer.Paths.{Text, sep, normalize_path, relativize}
use sembazuru.Tracer.Logical.{any}
use sembazuru.Tracer.Graph.{PathAccess, empty_accumulator, is_device, exe_name}
use sembazuru.Tracer.Graph.Fold.{is_telemetry, fold_events, fold_traces}
use sembazuru.Tracer.Graph.Own.{reads_event, reads_any}
use sembazuru.Tracer.Graph.Made.{leaves_any, leaves_event}
use sembazuru.Tracer.Graph.Lost.{file_event, read_lost_at_rename}
use sembazuru.Tracer.Manifest.{
  ReadOutcome, not_found, InputManifest, InputEntry, content, absent, sort_texts, DependencyGraph,
  assembled, bytes, Disk, conservative, input_manifest_with_policy,
}
use sembazuru.Tracer.Sha256.{sha256_hex}
use sembazuru.Tracer.Manifest.Hash.{keyed_line, absent_marker, cmd_marker, manifest_components}
use sembazuru.Tracer.Manifest.Unchanged.{SameRead, equal_components_unchanged}
use sembazuru.Tracer.Manifest.Allowed.{Allowed}
use sembazuru.Tracer.Manifest.Covered.{Covered, Entered, namesake, traced_read_covered}

-- `C:\w`
abbrev work : Text
work = b'C' ∷ b':' ∷ sep ∷ b'w' ∷ []

-- `c:\w`
abbrev root : Text
root = b'c' ∷ b':' ∷ sep ∷ b'w' ∷ []

-- `a.c`
abbrev source : Text
source = b'a' ∷ b'.' ∷ b'c' ∷ []

-- `a.o`
abbrev object : Text
object = b'a' ∷ b'.' ∷ b'o' ∷ []

-- `x.h`
abbrev header : Text
header = b'x' ∷ b'.' ∷ b'h' ∷ []

abbrev source_path : Text
source_path = root ++ (sep ∷ source)

abbrev compiler : Trace
compiler = record {
  version = 1;
  pid = 7;
  parent_pid = 1;
  qpc_frequency = 1;
  start_qpc = 0;
  start_filetime = 0;
  exe_path = b'c' ∷ b'l' ∷ [];
  command_line = b'c' ∷ b'l' ∷ [];
  cwd = work;
  events =
      file_event FileOp.probe object [] 2
      ∷ file_event FileOp.open_read source [] 0
      ∷ file_event FileOp.open_write object [] 0
      ∷ [];
  truncated = false;
}

abbrev linker : Trace
linker = record compiler {
  pid = 8;
  events = file_event FileOp.open_write header [] 0 ∷ file_event FileOp.move header object 0 ∷ [];
}

abbrev disk : Disk
disk = record { read = λ p. bytes p; is_dir = λ p. false }

abbrev seen : DependencyGraph
seen = assembled (compiler.command_line ∷ []) [] (fold_traces empty_accumulator (compiler ∷ []))

compiler_no_telemetry : is_telemetry compiler ≡ false
unfolding exe_name each same listed
compiler_no_telemetry = refl

compiler_reads : reads_any work source_path compiler.events ≡ true
unfolding any reads_event normalize_path is_device succeeded same starts_with each
compiler_reads = refl

-- `a.c` is no output of either; the linker puts `x.h` down and renames it to `a.o`.
none_leaves : leaves_any (namesake root source_path) (compiler ∷ linker ∷ []) ≡ false
unfolding any leaves_event normalize_path is_device succeeded same starts_with each exe_name listed
    relativize
none_leaves = refl

both_cacheable :
    (input_manifest_with_policy disk
      (assembled [] [] (fold_traces empty_accumulator (compiler ∷ linker ∷ [])))
      root
      conservative).cacheable
    ≡ true
unfolding input_manifest_with_policy assembled fold_traces each same listed starts_with lookup
    insert
both_cacheable = refl

traced_read_covered_example :
    Entered disk root source_path
      (input_manifest_with_policy disk
        (assembled [] [] (fold_traces empty_accumulator (compiler ∷ linker ∷ [])))
        root
        conservative).inputs
traced_read_covered_example =
    traced_read_covered disk [] [] [] compiler (linker ∷ []) root conservative source_path
      compiler_no_telemetry compiler_reads none_leaves (omega arith, tt) (λ a q. refl)
      both_cacheable

-- A read under a name that the run does not produce, in a graph of its own.
abbrev source_access : PathAccess
source_access = record { path = source_path; kinds = AccessKind.read ∷ []; pids = 7 ∷ [] }

abbrev small : DependencyGraph
small = record {
  command_lines = [];
  inputs = source_access ∷ [];
  outputs = [];
  registry = [];
  env = [];
  warnings = [];
}

source_is_file : is_device (normalize_path source work) ≡ false
unfolding is_device normalize_path same starts_with each
source_is_file = refl

-- `a.c` is read, could not be opened for writing (a sharing violation), and is renamed to `a.o`.
read_lost_at_rename_example :
    lookup
      (normalize_path source work)
      (fold_events 7 work
        (file_event FileOp.open_read source [] 0
          ∷ file_event FileOp.open_write source [] 32
          ∷ file_event FileOp.move source object 0
          ∷ [])
        (record { acc = empty_accumulator; produced = [] })).acc.inputs
    ≡ none
read_lost_at_rename_example =
    read_lost_at_rename 7 work source object 32 empty_accumulator source_is_file tt
      (unfold lookup in refl)

abbrev source_entry : InputEntry
source_entry = record { logical = source; absolute = source_path; kind = content }

abbrev header_entry : InputEntry
header_entry = record { logical = header; absolute = header; kind = absent }

abbrev found : InputManifest
found = record { inputs = source_entry ∷ header_entry ∷ []; cmds = []; cacheable = true }

-- Only the source is there, with one byte.
abbrev disk_read : Bool → ReadOutcome
disk_read true = bytes (1 ∷ [])
disk_read false = not_found

abbrev one_file : Disk
one_file = record { read = λ p. disk_read (same p source_path); is_dir = λ p. false }

-- There is a directory beside it.
abbrev one_file_later : Disk
one_file_later = record { read = λ p. disk_read (same p source_path); is_dir = λ p. same p root }

abbrev components : List Text
components =
    sort_texts (keyed_line source (sha256_hex (1 ∷ [])) ∷ keyed_line header absent_marker ∷ [])
    ++ (cmd_marker ∷ [])

components_before : manifest_components one_file found ≡ some components
unfolding manifest_components same
components_before = refl

components_after : manifest_components one_file_later found ≡ some components
unfolding manifest_components same
components_after = refl

found_no_nul : (e : InputEntry) → Memᴰ e found.inputs → All (λ b. b ≢ 0) e.logical
found_no_nul e (Memᴰ.head q) =
    subst (λ (x : InputEntry). All (λ b. b ≢ 0) x.logical) (sym q) (omega arith)
found_no_nul e (Memᴰ.tail (Memᴰ.head q)) =
    subst (λ (x : InputEntry). All (λ b. b ≢ 0) x.logical) (sym q) (omega arith)
found_no_nul e (Memᴰ.tail (Memᴰ.tail m)) = absurd (Memᴰ.not-nil m)

first_byte : InputEntry → ℕ
first_byte e = get_or e.logical 0 0

found_one :
    (e f : InputEntry) → Memᴰ e found.inputs → Memᴰ f found.inputs → e.logical ≡ f.logical → e ≡ f
unfolding first_byte
found_one e f (Memᴰ.head q) (Memᴰ.head r) n = q ∙ sym r
found_one e f (Memᴰ.head q) (Memᴰ.tail (Memᴰ.head r)) n =
    let no : ◌≡◌ {A = ℕ} b'a' b'x' =
      ap first_byte (sym q) ∙ ap (λ (l : Text). get_or l 0 0) n ∙ ap first_byte r in
    absurd (omega (arith, no))
found_one e f (Memᴰ.tail (Memᴰ.head q)) (Memᴰ.head r) n =
    let no : ◌≡◌ {A = ℕ} b'x' b'a' =
      ap first_byte (sym q) ∙ ap (λ (l : Text). get_or l 0 0) n ∙ ap first_byte r in
    absurd (omega (arith, no))
found_one e f (Memᴰ.tail (Memᴰ.head q)) (Memᴰ.tail (Memᴰ.head r)) n = q ∙ sym r
found_one e f (Memᴰ.tail (Memᴰ.tail m)) k n = absurd (Memᴰ.not-nil m)
found_one e f k (Memᴰ.tail (Memᴰ.tail m)) n = absurd (Memᴰ.not-nil m)

equal_components_unchanged_example :
    SameRead (one_file.read source_path) (one_file_later.read source_path)
equal_components_unchanged_example =
    equal_components_unchanged one_file one_file_later found components
      (record { no_nul = found_no_nul; one = found_one }) components_before components_after
      source_entry (Memᴰ.head refl)
