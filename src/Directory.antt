-- ===== src/Directory.antt =====
-- objstore.go: UploadDir, UploadFile and DownloadFile, over any bucket and the files.
pub mod Group
pub mod Upload
pub mod Walk
pub mod Uploaded
pub mod Download
pub mod Downloaded
