-- ===== src/Lib.antt =====
-- A model of Kyvernetria, a Kubernetes distribution, and theorems about it.
--
-- The program has two halves. x-inactivation/ is a wrapper that stands in for a control plane binary: it
-- picks one of two builds of kube-apiserver ("alleles" Xm and Xp) at a node's first boot, keeps the choice
-- on disk, and lets a node whose server crash-loops switch to the other build once. The overlay under
-- kubernetes/overlay/pkg/kyvernetria/ adds controllers and admission plugins: the gestation controller
-- reserves room for a service before its due date, delivers it, scores its launch, rolls it back or cares
-- for it, and discharges it; the plugins judge single requests.
--
-- Prelude: names passed on from the libraries; lists over native numbers (Prelude/Lists), Boolean tests
--   (Prelude/Tests), sorting (Prelude/Sort), and int32 and int64 with their wrap-around (Prelude/Int).
-- Text: what the code uses of Go's strings and strconv, on lists of code points: fields and trimming
--   (Text/Fields), numbers (Text/Decimal), splitting and joining (Text/Split), searching
--   (Text/Pieces), upper and lower case (Text/Case), their order (Text/Order), maps of texts (Text/Table).
-- XInactivation: x-inactivation/. Disk, Cell and Crash are cell.go's files, settings and RecordCrash, with
--   record_crash a function from the disk to the disk, the decision and the joined errors; the results of
--   the system calls are its argument Os. The lock makes a call one step. Crash/Choice is about the allele
--   on the disk, which can change without RecordCrash telling so, and Crash/Switches about a run of crashes. Start is Expressed; starters take
--   no lock, so Start/Race interleaves their steps in any order, and Start/Once runs one of them with
--   arbitrary changes of the disk between its steps. Wrapper is main.go: choose, withEmulation, xpMinor,
--   exited; Wrapper/Settings is newWrapper, with the durations of time.ParseDuration as an argument;
--   Wrapper/Supervise is the loop of supervise over a list of events.
-- Gestation: kubernetes/overlay/pkg/kyvernetria/gestation/. Pregnancy is Trimester and Reserved of
--   pregnancy.go, Apgar is Score, NextMinute and Rollback of apgar.go, Care is care.go,
--   Memory is memory.go. Memory/Pruning and Memory/Bound are about prune, Memory/Put and Memory/Loss about
--   Put; the bound, 256 in the code, and encoding/json are arguments there, and Memory/Codec is a codec that
--   has the law asked of it. Growth is growth.go, with the float64 arithmetic of percentile in
--   Growth/Float, Growth/Exact and Growth/Ranks about percentiles, and Growth/Kept about a trajectory. Screening is
--   screening.go: References in Screening, the checks of storage and quotas in Screening/Room, the others and
--   Screen in Screening/Summary; Screening/Needs, Names, Quotas and Silent are about what a clear check promises.
--   A finding keeps its check, its result and the names in its message.
-- Controller: kubernetes/overlay/pkg/kyvernetria/controller/gestation/. State holds the status of a
--   gestation (gestation/types.go) and what the pass reads and writes of the cluster; Birth is deliver,
--   createPDB, deletePDB and endCare of birth.go, Score its scores and its rollback, Nursery is care.go, Reserve is
--   pregnancy.go, and Reconcile is reconcile of controller.go, which dispatches to them. The answers of the
--   API server and of the informers are the record Inputs, so that every failure is covered.
--   Reconcile/Births and Reconcile/Lives say what the steps do, Reconcile/Valid what a phase means,
--   Reconcile/Afterwards and Reconcile/Progress put them together, and Reconcile/Lost is about a rollback
--   that fails half-way. Nursery/Discharge is about the end of newborn care, and its second try
--   when the budget could not be deleted.
--   Remembering is memory.go: what a pass puts into the memory of gestation/memory.go. Newborns is the
--   annotation of a namespace that care.go keeps for the plugin NewbornCare, and Measuring its measure.
--   Signs is signs of birth.go, with Signs/Events about the events that it counts.
--   Controller/Worry is controller/worry/worry.go: feel in Worry with Requested and Percent, the whole check in
--   Worry/Check; Worry/Hysteresis is about feel over time, Worry/Restart about the annotation that a new
--   controller starts from, Worry/Present about nodes that come and go.
--   Controller/Relationships is controller/relationships/relationships.go: the host names of a text, with the
--   index of services in Relationships/Index and the edges in Relationships/Graph. Relationships/Writes is
--   reconcile of controller/relationships/controller.go; Writes/Runs is about its writes, done one after
--   another, on all objects of the API, and Writes/Settled about what they leave.
-- Placement: placement/placement.go, with Placement/Pods and Placement/Sync for
--   controller/placememory/controller.go and Placement/Schedule for scheduler/placememory/placememory.go, all
--   of kubernetes/overlay/pkg/kyvernetria/. Sync runs beside other writers of the same object: what they do
--   before each call of the API is the argument Around, an arbitrary change of the server's copy. Fading and
--   Recalled are about recallNodes, Atomic about sync with rivals, Settled and Steady about sync without,
--   Siblings and Points about the scores, Keys about the keys of the work queue. A Go map that is ranged over
--   is a list, in the order in which the runtime happens to give it.
-- Kyvctl: kubernetes/overlay/pkg/kyvernetria/kyvctl/. Mosaic is Alleles of mosaic.go, which tells the alleles of
--   the nodes from their versions; Mosaic/Exact compares that with a direct definition.
-- Admission: kubernetes/overlay/pkg/kyvernetria/admission/. NoBruteForce, Immunity (with Antigens, what it
--   looks for in a pod, Immunity/Harmless, a pod in which it finds nothing, and Immunity/Creation, the verdict on new pods), StartingDose and NewbornCare, from the request to the verdict or the changed pod;
--   NewbornCare decodes the entries as Gestation/Care does.
-- Examples, in each part, applies its theorems to concrete states.
--
-- Numbers: int32 and int64 results wrap around where the source computes them; durations stop at the largest
-- int64 as time.Time.Sub does. The loops of the source run over lists, and sync counts
-- its 5 attempts as the code does; only the printing of a number takes fuel, one more than the number.
--
-- Not modelled: the sending of events, log lines and texts of messages; the reads of informers; Sync and its status
-- writes; the reads and writes of the memory of gestations; the installation of the
-- Relationship API; humanize, and what kyvctl reads and prints; work queues, and the glue that registers all of them.
-- Kubernetes itself is not in this repository: its user names, its caches and its answers are
-- arguments. Case folding beyond ASCII is a function argument. A text that the bound of a record cuts within
-- a code point ends in U+FFFD, as encoding/json writes it.
pub mod Prelude
pub mod Text
pub mod XInactivation
pub mod Gestation
pub mod Kyvctl
pub mod Admission
pub mod Placement
pub mod Controller
