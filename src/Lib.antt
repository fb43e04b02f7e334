-- ===== src/Lib.antt =====
-- objstore: the Go module that gives every object store one interface, Bucket.
--
-- The program's parts and the files that model them (paths from the repository's root):
--   objstore.go, the interface Bucket, its options and readers: Bucket, Options and Reader.
--     A bucket is a record of operations over the world W of the program (Go.antt): an operation
--     returns a value and a changed world, or panics. `(T, error)` is a pair with an
--     Option Error; the error values are those of Errors.antt.
--   inmem.go, InMemBucket: Inmem. Its two maps are association lists (Dict), its methods
--     functions of the record: the mutex is held for all of the work on the maps. Inmem.Iter has
--     the parts of Iter, Inmem.Instance makes it a Bucket of a world that holds it.
--   prefixed_bucket.go, PrefixedBucket: Prefixed, over any Bucket. Prefixed.View is the abstract
--     view that a prefix gives of an InMemBucket.
--   objstore.go, metricBucket (Metrics.Instrumented) and timingReadCloser (Metrics.Timing): the
--     collectors of package prometheus are a parameter, which keeps the calls that it receives.
--   tracing/opentracing/opentracing.go and tracing/opentelemetry/opentelemetry.go: Tracing, with
--     a child for each. Spans are numbers, and the model keeps the calls that they receive.
--   providers/s3/s3.go: S3, the methods of Bucket over a minio client, and S3.Config, the checks of
--     the configuration.
--   providers/filesystem/filesystem.go: Files, the tree of files of a disk with the calls of package
--     os, and Filesystem, the bucket over it.
--   providers/cos/cos.go, bos/bos.go, oss/oss.go and obs/obs.go beside it: Cos, Bos, Oss and Obs, the
--     methods of Bucket over a client, and Cos.Config, Bos.Config, Oss.Config and Obs.Config, the
--     constructors. The loop over the parts of an upload, which the first three have in common, is
--     Chunks; the loop over the pages of a listing in bos, oss and obs is Paging; that of cos, a
--     goroutine, is Cos.Pages. providers/gcs/gcs.go: Gcs, likewise.
--   exthttp/transport.go: Transport. objstore.go, UploadDir, UploadFile and DownloadFile:
--     Directory, over any Bucket and a disk. The functions of the errgroup of an upload run one after
--     another (Directory.Group).
--   client/factory.go: Factory, over the constructors of the providers.
--   errutil/multierror.go: Errutil. clientutil/parse.go and exthttp/parse.go: Headers.
--   tlsconfig.go and exthttp/tlsconfig.go: Tls. testing.go, the delaying bucket: Testing.
--   ReadCloser and Bucket.Request have what the wrappers share: readers and calls as values.
--   Text is package strings over lists of byte values, Text.Decimal the decimal numbers of
--     packages strconv and fmt, Prelude.Int the int64.
--
-- Parameters, for code that is not in the repository: package github.com/pkg/errors (ErrorsPkg),
-- package prometheus and the clock (Prometheus), the tracers (Opentracing, Tracer), the clients of
-- the vendors (S3.Client, and Client in the Sdk of each provider) with their constructors and
-- the parsing of URLs and of YAML, and the readers that a wrapped bucket returns (ReadClosers). So
-- are the layouts of time.Parse (Headers.TimeParse), the files of certificates (Tls.TlsFiles), the
-- time that passes in time.Sleep (Testing.Sleep), the part of the world that is the disk
-- (Filesystem.Disk), and the errors of other goroutines that a context meets (Ctx). The order in
-- which Go visits a map is the order of the association list, which may be any.
--
-- Strings of the source become lists of bytes by `codes`; the message of an error has not the names
-- and numbers that its format inserts. Numbers are native; the int64 sums of GetRange and of the
-- readers wrap (Prelude.Int.add64), and the float64 quotient of a size, which is exact below 2 ^ 53,
-- is that of integers. The capacity of a byte slice is taken to be its length.
--
-- Loops are structural recursion where they can be. The printer of decimal numbers has as fuel one
-- more than the number, as each step divides it by ten; Delete of the filesystem one more than the
-- length of the path, as each round goes to the parent; its Iter the depth of the directories; and
-- the loops over a listing the number of its pages, in gcs of its entries, which a service need not
-- bound. Where the fuel is short the model has no outcome.
--
-- Not modelled: DownloadDir, whose functions run while it lists and can outlive it, so that it needs
-- the interleavings of what they do to the files; the providers azure, oci and swift; the making of
-- an S3 client behind the checks of its configuration; the helpers that make buckets for tests, and
-- the tests; and log lines. Deferred calls that a panic would run are left out, since a panic ends a
-- run of the model.
pub mod Prelude
pub mod Text
pub mod Chunks
pub mod Cos
pub mod Dict
pub mod Directory
pub mod Errors
pub mod Go
pub mod Reader
pub mod Options
pub mod Bos
pub mod Oss
pub mod Obs
pub mod Gcs
pub mod Factory
pub mod Bucket
pub mod ReadCloser
pub mod Headers
pub mod Errutil
pub mod Testing
pub mod S3
pub mod Tls
pub mod Files
pub mod Filesystem
pub mod Tracing
pub mod Transport
pub mod Inmem
pub mod Paging
pub mod Prefixed
pub mod Metrics
pub mod Examples
